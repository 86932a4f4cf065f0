-- ===== src/HandlerRegistry/Lookup.antt =====
-- What a registry finds after registrations (src/axon_utils/handler_registry.rs).
use rusty_dendrite.Prelude.{
  String, ◌≡◌, ◌∙◌, ap, Option, none, some, List, [], ◌∷◌, arith, ◌==◌, eq_iff, if◌then◌else◌,
  or_else,
}
use rusty_dendrite.Io.{ok, err, about}
use rusty_dendrite.HashMap.{get-insert, contains_key-eq}
use rusty_dendrite.HandlerRegistry.{SubscriptionHandle, TheHandlerRegistry, get, register}

module _ {S P W : Type 0} where
  -- Registrations one after the other, a refused one being passed over.
  abbrev pub register_all :
      List (SubscriptionHandle S P W) → TheHandlerRegistry S P W → TheHandlerRegistry S P W
  register_all [] r = r
  register_all (h ∷ hs) r = register_all hs (register h r).1

  -- The first handle of a list under a name.
  abbrev pub first_named :
      String → List (SubscriptionHandle S P W) → Option (SubscriptionHandle S P W)
  first_named name [] = none
  first_named name (h ∷ hs) = if h.name == name then some h else first_named name hs

  pub get-register :
      (r : TheHandlerRegistry S P W) (h : SubscriptionHandle S P W) (name : String)
      → get (register h r).1 name ≡ or_else (get r name) (if h.name == name then some h else none)
  unfolding register get
  get-register r h name = ground (
    arith,
    get-insert r.handlers h.name name h,
    contains_key-eq r.handlers h.name,
    eq_iff h.name name,
  )

  or_else-if :
      (o : Option (SubscriptionHandle S P W)) (h : SubscriptionHandle S P W) (name : String)
      (rest : Option (SubscriptionHandle S P W))
      → or_else (or_else o (if h.name == name then some h else none)) rest
        ≡ or_else o (if h.name == name then some h else rest)
  or_else-if o h name rest = ground arith

  -- After any sequence of registrations, refused ones included, a name that was bound before keeps
  -- its handle, and another name has the first handle of the sequence that is registered under it.
  pub get-register_all :
      (hs : List (SubscriptionHandle S P W)) (r : TheHandlerRegistry S P W) (name : String)
      → get (register_all hs r) name ≡ or_else (get r name) (first_named name hs)
  get-register_all [] r name = ground arith
  get-register_all (h ∷ hs) r name =
      get-register_all hs (register h r).1 name
      ∙ ap (λ o. or_else o (first_named name hs)) (get-register r h name)
      ∙ or_else-if (get r name) h name (first_named name hs)

  -- A registration is refused exactly when its name is bound; it then leaves the registry as it was.
  pub register_duplicate :
      (r : TheHandlerRegistry S P W) (h g : SubscriptionHandle S P W)
      → get r h.name ≡ some g
      → register h r ≡ (err (about "Handler already registered: " h.name), r)
  unfolding register get
  register_duplicate r h g e = ground (arith, contains_key-eq r.handlers h.name)

  pub register_fresh :
      (r : TheHandlerRegistry S P W) (h : SubscriptionHandle S P W)
      → get r h.name ≡ none
      → (register h r).0 ≡ ok tt
  unfolding register get
  register_fresh r h e = ground (arith, contains_key-eq r.handlers h.name)
