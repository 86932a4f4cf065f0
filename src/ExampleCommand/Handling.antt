-- ===== src/ExampleCommand/Handling.antt =====
-- The three commands of the greeter, from the payload to the event store
-- (src/example_command/mod.rs, and `handle_command` of src/axon_utils/command_worker.rs).
use rusty_dendrite.Prelude.{String, ◌≡◌, refl, Option, none, some}
use rusty_dendrite.Io.{Result, ok, err, panicked, Io}
use rusty_dendrite.Messages.{Bytes}
use rusty_dendrite.Runtime.{Runtime}
use rusty_dendrite.HashMap
use rusty_dendrite.HandlerRegistry
use rusty_dendrite.HandlerRegistry.{SubscriptionHandle, empty_handler_registry}
use rusty_dendrite.EventStore.{EventStoreClient}
use rusty_dendrite.CommandWorker.Emit.{EmitApplicableEventsAndResponse, EmitEventsAndResponse}
use rusty_dendrite.CommandWorker.Aggregate.{
  AggregateDefinition, create_aggregate_definition, extract_id, restore, late_id, finish,
  handle_payload,
}
use rusty_dendrite.ExampleCommand.{
  Codecs, GreeterProjection, GreetCommand, RecordCommand, StopCommand, handle_greet_command,
  handle_record_command, handle_stop_command,
}
use rusty_dendrite.ExampleCommand.Setup.{greeter_definition}

module _ {S P : Type 0} (rt : Runtime S) (definition : AggregateDefinition S P)
    (client : EventStoreClient S) where
  -- What follows the handler of a command whose identifier is known.
  abbrev pub after_handler :
      String
      → Result (Option (EmitApplicableEventsAndResponse P))
      → Io S (Option EmitEventsAndResponse)
  after_handler id (ok result) s = finish rt client (some id) result s
  after_handler id (err e) s = (err e, s)
  after_handler id panicked s = (panicked, s)

  pub handle_payload-eq :
      (name id : String) (buf : Bytes) (s : S)
      (h : SubscriptionHandle S P (EmitApplicableEventsAndResponse P)) (projection : P)
      (r : Result (Option (EmitApplicableEventsAndResponse P)))
      → extract_id definition name buf none s ≡ (ok (some id), s)
      → HandlerRegistry.get definition.command_handler_registry name ≡ some h
      → restore definition client (some id) s ≡ (ok projection, s)
      → h.handle buf projection s ≡ (r, s)
      → handle_payload rt definition name buf client s ≡ after_handler id r s
  unfolding handle_payload late_id
  handle_payload-eq name id buf s h projection (ok result) e₁ e₂ e₃ e₄ = rw (e₁, e₂, e₃, e₄) refl
  handle_payload-eq name id buf s h projection (err e) e₁ e₂ e₃ e₄ = rw (e₁, e₂, e₃, e₄) refl
  handle_payload-eq name id buf s h projection panicked e₁ e₂ e₃ e₄ = rw (e₁, e₂, e₃, e₄) refl

module _ (codecs : Codecs) {S : Type 0} where
  pub extract-greet :
      (buf : Bytes) (c : GreetCommand) (s : S)
      → codecs.greet_command.decode buf ≡ ok c
      → extract_id (greeter_definition codecs) "GreetCommand" buf none s ≡ (ok (some "xxx"), s)
  unfolding extract_id greeter_definition create_aggregate_definition HandlerRegistry.get
      HandlerRegistry.insert_with_output empty_handler_registry HashMap.get HashMap.insert
      HashMap.contains_key
  extract-greet buf c s e = rw e

  pub run-greet :
      (buf : Bytes) (c : GreetCommand) (projection : GreeterProjection) (s : S)
      (r : Result (Option (EmitApplicableEventsAndResponse GreeterProjection)))
      → codecs.greet_command.decode buf ≡ ok c
      → handle_greet_command codecs c projection ≡ r
      → (h : SubscriptionHandle S GreeterProjection
          (EmitApplicableEventsAndResponse GreeterProjection))
        × (HandlerRegistry.get (greeter_definition codecs).command_handler_registry "GreetCommand"
            ≡ some h)
        × (h.handle buf projection s ≡ (r, s))
  unfolding greeter_definition create_aggregate_definition HandlerRegistry.get
      HandlerRegistry.insert_with_output empty_handler_registry HashMap.get HashMap.insert
      HashMap.contains_key
  run-greet buf c projection s (ok (some x)) e e' = (_, refl, rw (e, e') refl)
  run-greet buf c projection s (ok none) e e' = (_, refl, rw (e, e') refl)
  run-greet buf c projection s (err x) e e' = (_, refl, rw (e, e') refl)
  run-greet buf c projection s panicked e e' = (_, refl, rw (e, e') refl)

  pub extract-record :
      (buf : Bytes) (c : RecordCommand) (s : S)
      → codecs.record_command.decode buf ≡ ok c
      → extract_id (greeter_definition codecs) "RecordCommand" buf none s ≡ (ok (some "xxx"), s)
  unfolding extract_id greeter_definition create_aggregate_definition HandlerRegistry.get
      HandlerRegistry.insert_with_output empty_handler_registry HashMap.get HashMap.insert
      HashMap.contains_key
  extract-record buf c s e = rw e

  pub run-record :
      (buf : Bytes) (c : RecordCommand) (projection : GreeterProjection) (s : S)
      (r : Result (Option (EmitApplicableEventsAndResponse GreeterProjection)))
      → codecs.record_command.decode buf ≡ ok c
      → handle_record_command codecs c projection ≡ r
      → (h : SubscriptionHandle S GreeterProjection
          (EmitApplicableEventsAndResponse GreeterProjection))
        × (HandlerRegistry.get (greeter_definition codecs).command_handler_registry "RecordCommand"
            ≡ some h)
        × (h.handle buf projection s ≡ (r, s))
  unfolding greeter_definition create_aggregate_definition HandlerRegistry.get
      HandlerRegistry.insert_with_output empty_handler_registry HashMap.get HashMap.insert
      HashMap.contains_key
  run-record buf c projection s (ok (some x)) e e' = (_, refl, rw (e, e') refl)
  run-record buf c projection s (ok none) e e' = (_, refl, rw (e, e') refl)
  run-record buf c projection s (err x) e e' = (_, refl, rw (e, e') refl)
  run-record buf c projection s panicked e e' = (_, refl, rw (e, e') refl)

  pub extract-stop :
      (buf : Bytes) (c : StopCommand) (s : S)
      → codecs.stop_command.decode buf ≡ ok c
      → extract_id (greeter_definition codecs) "StopCommand" buf none s ≡ (ok (some "xxx"), s)
  unfolding extract_id greeter_definition create_aggregate_definition HandlerRegistry.get
      HandlerRegistry.insert_with_output empty_handler_registry HashMap.get HashMap.insert
      HashMap.contains_key
  extract-stop buf c s e = rw e

  pub run-stop :
      (buf : Bytes) (c : StopCommand) (projection : GreeterProjection) (s : S)
      (r : Result (Option (EmitApplicableEventsAndResponse GreeterProjection)))
      → codecs.stop_command.decode buf ≡ ok c
      → handle_stop_command codecs c projection ≡ r
      → (h : SubscriptionHandle S GreeterProjection
          (EmitApplicableEventsAndResponse GreeterProjection))
        × (HandlerRegistry.get (greeter_definition codecs).command_handler_registry "StopCommand"
            ≡ some h)
        × (h.handle buf projection s ≡ (r, s))
  unfolding greeter_definition create_aggregate_definition HandlerRegistry.get
      HandlerRegistry.insert_with_output empty_handler_registry HashMap.get HashMap.insert
      HashMap.contains_key
  run-stop buf c projection s (ok (some x)) e e' = (_, refl, rw (e, e') refl)
  run-stop buf c projection s (ok none) e e' = (_, refl, rw (e, e') refl)
  run-stop buf c projection s (err x) e e' = (_, refl, rw (e, e') refl)
  run-stop buf c projection s panicked e e' = (_, refl, rw (e, e') refl)
