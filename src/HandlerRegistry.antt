-- ===== src/HandlerRegistry.antt =====
-- src/axon_utils/handler_registry.rs: handlers for named payloads. A boxed trait object is a record
-- of its methods; a clone is the value itself; `&mut self` is the state of `Io`.
pub mod Lookup
pub mod Dispatch
mod Tests
use rusty_dendrite.Prelude.{String, Option, none, some, [], if◌then◌else◌}
use rusty_dendrite.Io.{Result, ok, err, panicked, about, Io, lift, ◌>>=◌, ◌>>◌, pure}
use rusty_dendrite.Messages.{Bytes}
use rusty_dendrite.HashMap
use rusty_dendrite.HashMap.{HashMap}

-- The trait `SubscriptionHandle<P,W>`.
pub record SubscriptionHandle (S P W : Type 0) : Type 0 where
  pub name : String
  pub handle : Bytes → P → Io S (Option W)

pub record TheHandlerRegistry (S P W : Type 0) : Type 0 where
  pub handlers : HashMap (SubscriptionHandle S P W)

pub record ResponseWrapper (R W : Type 0) : Type 0 where
  pub type_name : String
  pub convert : String → R → Result W

pub record Subscription (S P T R W : Type 0) : Type 0 where
  pub name : String
  pub deserializer : Bytes → Result T
  pub handler : T → P → Io S (Option R)
  pub wrapper : Option (ResponseWrapper R W)

pub record SubscriptionVoid (S P T : Type 0) : Type 0 where
  pub name : String
  pub deserializer : Bytes → Result T
  pub handler : T → P → Io S (Unit {0})

converted : {W : Type 0} → Result W → Result (Option W)
converted (ok w) = ok (some w)
converted (err e) = err e
converted panicked = panicked

module _ {R W : Type 0} where
  -- The two nested `if let` of `Subscription::handle`.
  wrap : Option (ResponseWrapper R W) → Option R → Result (Option W)
  unfolding converted
  wrap (some wrapper) (some result) = converted (wrapper.convert wrapper.type_name result)
  wrap none (some result) = ok none
  wrap _ none = ok none

module _ {S P T R W : Type 0} where
  handle_subscription : Subscription S P T R W → Bytes → P → Io S (Option W)
  unfolding wrap
  handle_subscription self buf projection = do
    payload ← lift (self.deserializer buf)
    result ← self.handler payload projection
    lift (wrap self.wrapper result)

  subscription_handle : Subscription S P T R W → SubscriptionHandle S P W
  unfolding handle_subscription
  subscription_handle self = record { name = self.name; handle = handle_subscription self }

module _ {S P T W : Type 0} where
  handle_subscription_void : SubscriptionVoid S P T → Bytes → P → Io S (Option W)
  handle_subscription_void self buf projection = do
    payload ← lift (self.deserializer buf)
    self.handler payload projection
    pure none

  subscription_void_handle : SubscriptionVoid S P T → SubscriptionHandle S P W
  unfolding handle_subscription_void
  subscription_void_handle self = record {
    name = self.name;
    handle = handle_subscription_void self;
  }

module _ {S P W : Type 0} where
  unfoldable pub empty_handler_registry : TheHandlerRegistry S P W
  empty_handler_registry = record { handlers = [] }

  unfoldable pub get : TheHandlerRegistry S P W → String → Option (SubscriptionHandle S P W)
  get self name = HashMap.get self.handlers name

  -- The end of each insertion: the guard on the key, and the write.
  unfoldable pub register : SubscriptionHandle S P W → Io (TheHandlerRegistry S P W) (Unit {0})
  register handle self =
      if HashMap.contains_key self.handlers handle.name
      then (err (about "Handler already registered: " handle.name), self)
      else (ok tt, record { handlers = HashMap.insert self.handlers handle.name handle })

module _ {S P T W : Type 0} where
  unfoldable pub insert :
      String
      → (Bytes → Result T)
      → (T → P → Io S (Unit {0}))
      → Io (TheHandlerRegistry S P W) (Unit {0})
  unfolding register subscription_void_handle
  insert name deserializer handler = register (
      subscription_void_handle
        (record { name = name; deserializer = deserializer; handler = handler }))

  unfoldable pub insert_with_output :
      String
      → (Bytes → Result T)
      → (T → P → Io S (Option W))
      → Io (TheHandlerRegistry S P W) (Unit {0})
  unfolding register subscription_handle
  insert_with_output name deserializer handler = register (
      subscription_handle (record {
        name = name;
        deserializer = deserializer;
        handler = handler;
        wrapper = some (record { type_name = "UNKNOWN"; convert = λ _ r. ok r });
      }))

module _ {S P T R W : Type 0} where
  unfoldable pub insert_ignoring_output :
      String
      → (Bytes → Result T)
      → (T → P → Io S (Option R))
      → Io (TheHandlerRegistry S P W) (Unit {0})
  unfolding register subscription_handle
  insert_ignoring_output name deserializer handler = register (
      subscription_handle
        (record { name = name; deserializer = deserializer; handler = handler; wrapper = none }))

  unfoldable pub insert_with_mapped_output :
      String
      → (Bytes → Result T)
      → (T → P → Io S (Option R))
      → String
      → (String → R → Result W)
      → Io (TheHandlerRegistry S P W) (Unit {0})
  unfolding register subscription_handle
  insert_with_mapped_output name deserializer handler type_name wrapper = register (
      subscription_handle (record {
        name = name;
        deserializer = deserializer;
        handler = handler;
        wrapper = some (record { type_name = type_name; convert = wrapper });
      }))
