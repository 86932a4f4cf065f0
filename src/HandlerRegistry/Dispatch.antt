-- ===== src/HandlerRegistry/Dispatch.antt =====
-- What a handle that was registered by each of the four insertions does with a payload
-- (src/axon_utils/handler_registry.rs).
use rusty_dendrite.Prelude.{
  String, ◌≡◌, refl, ◌∙◌, ap, Option, none, some, fun_ext, arith, eq_refl, map_option,
}
use rusty_dendrite.Io.{Result, ok, err, panicked, Io, lift, pure, ◌>>=◌, ◌>>◌, bind-pure}
use rusty_dendrite.Messages.{Bytes}
use rusty_dendrite.HandlerRegistry.{
  ResponseWrapper, Subscription, SubscriptionHandle, TheHandlerRegistry, get, register, insert,
  insert_with_output, insert_ignoring_output, insert_with_mapped_output, subscription_handle,
  handle_subscription, subscription_void_handle, handle_subscription_void, wrap, converted,
}
use rusty_dendrite.HandlerRegistry.Lookup.{get-register}

module _ {S P W : Type 0} where
  -- Look a handler up by name, and let it handle a payload.
  abbrev pub dispatch : TheHandlerRegistry S P W → String → Bytes → P → Option (Io S (Option W))
  dispatch r name buf projection = map_option (λ h. h.handle buf projection) (get r name)

  get-register_self :
      (r : TheHandlerRegistry S P W) (h : SubscriptionHandle S P W)
      → get r h.name ≡ none
      → get (register h r).1 h.name ≡ some h
  get-register_self r h e = rw (get-register r h h.name, e, eq_refl h.name)

-- The output of a handler, converted where there is one.
abbrev pub map_output : {R W : Type 0} → (R → Result W) → Option R → Result (Option W)
map_output f none = ok none
map_output f (some x) = elim (f x) [ ok w ↦ ok (some w) | err e ↦ err e | panicked ↦ panicked ]

module _ {R W : Type 0} where
  wrap-some :
      (type_name : String) (f : String → R → Result W) (o : Option R)
      → wrap (some (record { type_name = type_name; convert = f })) o ≡ map_output (f type_name) o
  unfolding wrap converted
  wrap-some type_name f none = refl
  wrap-some type_name f (some x) = ground arith

  wrap-none : (o : Option R) → wrap {W = W} none o ≡ ok none
  unfolding wrap
  wrap-none none = refl
  wrap-none (some x) = refl

map_output-ok : {W : Type 0} (o : Option W) → map_output ok o ≡ ok o
map_output-ok none = refl
map_output-ok (some x) = refl

module _ {S P W : Type 0} where
  dispatch-register :
      (r : TheHandlerRegistry S P W) (h : SubscriptionHandle S P W) (buf : Bytes) (projection : P)
      → get r h.name ≡ none
      → dispatch (register h r).1 h.name buf projection ≡ some (h.handle buf projection)
  dispatch-register r h buf projection fresh = rw (get-register_self r h fresh)

module _ {S P T R W : Type 0} where
  -- A registered subscription whose wrapper has the effect of `f` on every output.
  dispatch-subscription :
      (r : TheHandlerRegistry S P W) (self : Subscription S P T R W)
      (f : Option R → Result (Option W)) (buf : Bytes) (projection : P)
      → get r self.name ≡ none
      → ((o : Option R) → wrap self.wrapper o ≡ f o)
      → dispatch (register (subscription_handle self) r).1 self.name buf projection
        ≡ some (do
          payload ← lift (self.deserializer buf)
          output ← self.handler payload projection
          lift (f output))
  unfolding subscription_handle handle_subscription
  dispatch-subscription r self f buf projection fresh e =
      dispatch-register r (subscription_handle self) buf projection fresh ∙ rw (fun_ext e)

  abbrev subscription :
      String
      → (Bytes → Result T)
      → (T → P → Io S (Option R))
      → Option (ResponseWrapper R W)
      → Subscription S P T R W
  subscription name decode handler wrapper = record {
    name = name;
    deserializer = decode;
    handler = handler;
    wrapper = wrapper;
  }

module _ {S P T W : Type 0} (r : TheHandlerRegistry S P W) (name : String)
    (decode : Bytes → Result T) (buf : Bytes) (projection : P) (fresh : get r name ≡ none) where
  -- A handler registered under a free name by `insert` gets the decoded payload and the projection,
  -- and what it returns is dropped; a payload that does not decode is the error, and reaches no
  -- handler.
  pub dispatch-insert :
      (handler : T → P → Io S (Unit {0}))
      → dispatch (insert name decode handler r).1 name buf projection
        ≡ some (do payload ← lift (decode buf); handler payload projection; pure none)
  unfolding insert subscription_void_handle handle_subscription_void
  dispatch-insert handler = dispatch-register r _ buf projection fresh

  -- A handler registered under a free name by `insert_with_output` gets the decoded payload and the
  -- projection, and its output, error or panic is the result; a payload that does not decode is the
  -- error, and reaches no handler.
  pub dispatch-insert_with_output :
      (handler : T → P → Io S (Option W))
      → dispatch (insert_with_output name decode handler r).1 name buf projection
        ≡ some (do payload ← lift (decode buf); handler payload projection)
  unfolding insert_with_output subscription_handle
  dispatch-insert_with_output handler =
      dispatch-subscription r
        (subscription name decode handler
          (some (record { type_name = "UNKNOWN"; convert = λ _ x. ok x })))
        ok buf projection fresh (λ o. wrap-some "UNKNOWN" (λ _ x. ok x) o ∙ map_output-ok o)
      ∙ ap (λ (k : T → Io S (Option W)). some (lift (decode buf) >>= k))
          (fun_ext λ payload. bind-pure (handler payload projection))

  -- A handler registered under a free name by `insert_ignoring_output` runs in the same way, and its
  -- output is dropped.
  pub dispatch-insert_ignoring_output :
      {R : Type 0} (handler : T → P → Io S (Option R))
      → dispatch (insert_ignoring_output name decode handler r).1 name buf projection
        ≡ some (do payload ← lift (decode buf); output ← handler payload projection; pure none)
  unfolding insert_ignoring_output subscription_handle
  dispatch-insert_ignoring_output handler =
      dispatch-subscription r (subscription name decode handler none) (λ _. ok none) buf projection
        fresh wrap-none

  -- A handler registered under a free name by `insert_with_mapped_output` runs in the same way; an
  -- output is converted under the type name of the registration, and an error of the conversion is
  -- the result.
  pub dispatch-insert_with_mapped_output :
      {R : Type 0} (handler : T → P → Io S (Option R)) (type_name : String)
      (wrapper : String → R → Result W)
      → dispatch
          (insert_with_mapped_output name decode handler type_name wrapper r).1
          name
          buf
          projection
        ≡ some (do
          payload ← lift (decode buf)
          output ← handler payload projection
          lift (map_output (wrapper type_name) output))
  unfolding insert_with_mapped_output subscription_handle
  dispatch-insert_with_mapped_output handler type_name wrapper =
      dispatch-subscription r
        (subscription name decode handler
          (some (record { type_name = type_name; convert = wrapper })))
        (map_output (wrapper type_name)) buf projection fresh (wrap-some type_name wrapper)

  -- A handler that is registered under a free name gets, for a payload that is dispatched to the name,
  -- what the payload decodes to and the projection; a payload that does not decode is the error, and
  -- reaches no handler. What comes of the handler depends on the insertion: `insert` gives no output,
  -- `insert_with_output` the output itself, `insert_ignoring_output` drops it, and
  -- `insert_with_mapped_output` converts it under the type name of the registration, where an error of
  -- the conversion is the result.
  pub dispatch-inserted :
      {R : Type 0} (quiet : T → P → Io S (Unit {0})) (direct : T → P → Io S (Option W))
      (loud : T → P → Io S (Option R)) (type_name : String) (wrapper : String → R → Result W)
      → (dispatch (insert name decode quiet r).1 name buf projection
          ≡ some (do payload ← lift (decode buf); quiet payload projection; pure none))
        × (dispatch (insert_with_output name decode direct r).1 name buf projection
            ≡ some (do payload ← lift (decode buf); direct payload projection))
        × (dispatch (insert_ignoring_output name decode loud r).1 name buf projection
            ≡ some (do payload ← lift (decode buf); output ← loud payload projection; pure none))
        × (dispatch
              (insert_with_mapped_output name decode loud type_name wrapper r).1
              name
              buf
              projection
            ≡ some (do
              payload ← lift (decode buf)
              output ← loud payload projection
              lift (map_output (wrapper type_name) output)))
  dispatch-inserted quiet direct loud type_name wrapper = (
    dispatch-insert quiet,
    dispatch-insert_with_output direct,
    dispatch-insert_ignoring_output loud,
    dispatch-insert_with_mapped_output loud type_name wrapper,
  )
