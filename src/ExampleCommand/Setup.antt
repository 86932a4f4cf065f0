-- ===== src/ExampleCommand/Setup.antt =====
-- `internal_handle_commands` of src/example_command/mod.rs: the registries of the greeter, and the
-- command worker over them. The insertions into one registry are in the order of the source; those
-- of different registries do not meet.
use rusty_dendrite.Prelude.{String, ◌≡◌, refl, some, [], map_option}
use rusty_dendrite.Io.{ok, err, panicked, Io, lift, pure, with_context, ◌>>◌}
use rusty_dendrite.Runtime.{Runtime, Streaming}
use rusty_dendrite.HashMap
use rusty_dendrite.HandlerRegistry
use rusty_dendrite.HandlerRegistry.{TheHandlerRegistry, empty_handler_registry}
use rusty_dendrite.EventStore.{EventStoreClient}
use rusty_dendrite.CommandWorker.Protocol.{CommandProviderInbound}
use rusty_dendrite.CommandWorker.Emit.{EmitApplicableEventsAndResponse}
use rusty_dendrite.CommandWorker.Aggregate.{
  AggregateDefinition, create_aggregate_definition, aggregate_handle,
}
use rusty_dendrite.CommandWorker.Registry
use rusty_dendrite.CommandWorker.Registry.{TheAggregateRegistry, empty_aggregate_registry}
use rusty_dendrite.CommandWorker.Worker.{Run, command_worker}
use rusty_dendrite.ExampleCommand.{
  Codecs, GreeterProjection, handle_sourcing_event, greeted, started, stopped, fixed_aggregate_id,
  handle_greet_command, handle_record_command, handle_stop_command, empty_projection,
}

abbrev Insertions : Type 0 → Type 0 → Type 0 → Type 0
Insertions S P W = Io (TheHandlerRegistry S P W) (Unit {0})

module _ (codecs : Codecs) {S : Type 0} where
  sourcing_insertions : Insertions S GreeterProjection GreeterProjection
  unfolding handle_sourcing_event greeted started stopped
  sourcing_insertions = do
    HandlerRegistry.insert_with_output "GreetedEvent" codecs.greeted_event.decode
        (λ c p. lift (handle_sourcing_event (greeted codecs c) p))
    HandlerRegistry.insert_with_output "StoppedRecordingEvent" codecs.stopped_recording_event.decode
        (λ c p. lift (handle_sourcing_event (stopped codecs c) p))
    HandlerRegistry.insert_with_output "StartedRecordingEvent" codecs.started_recording_event.decode
        (λ c p. lift (handle_sourcing_event (started codecs c) p))

  extractor_insertions : Insertions S (Unit {0}) String
  extractor_insertions = do
    HandlerRegistry.insert_with_output "GreetCommand" codecs.greet_command.decode
        (λ _ _. pure fixed_aggregate_id)
    HandlerRegistry.insert_with_output "RecordCommand" codecs.record_command.decode
        (λ _ _. pure fixed_aggregate_id)
    HandlerRegistry.insert_with_output "StopCommand" codecs.stop_command.decode
        (λ _ _. pure fixed_aggregate_id)

  command_insertions :
      Insertions S GreeterProjection (EmitApplicableEventsAndResponse GreeterProjection)
  command_insertions = do
    HandlerRegistry.insert_with_output "GreetCommand" codecs.greet_command.decode
        (λ c p. lift (handle_greet_command codecs c p))
    HandlerRegistry.insert_with_output "RecordCommand" codecs.record_command.decode
        (λ c p. lift (handle_record_command codecs c p))
    HandlerRegistry.insert_with_output "StopCommand" codecs.stop_command.decode
        (λ c p. lift (handle_stop_command codecs c p))

  unfoldable pub greeter_definition : AggregateDefinition S GreeterProjection
  unfolding sourcing_insertions extractor_insertions command_insertions
  greeter_definition =
      create_aggregate_definition "GreeterProjection" empty_projection
        (extractor_insertions empty_handler_registry).1
        (command_insertions empty_handler_registry).1 (sourcing_insertions empty_handler_registry).1

  -- The `?` behind each insertion.
  unfoldable pub insertions : Io S (Unit {0})
  unfolding sourcing_insertions extractor_insertions command_insertions
  insertions = do
    lift (sourcing_insertions empty_handler_registry).0
    lift (extractor_insertions empty_handler_registry).0
    lift (command_insertions empty_handler_registry).0

  unfoldable pub greeter_registry : Runtime S → TheAggregateRegistry S
  greeter_registry rt =
      Registry.insert empty_aggregate_registry (aggregate_handle rt greeter_definition)

  unfoldable pub internal_handle_commands :
      Runtime S → EventStoreClient S → Io S (Streaming CommandProviderInbound) → S → Run S
  internal_handle_commands rt client open_stream s = elim (insertions s).0 [
    | ok _ ↦
        let run = command_worker (greeter_registry rt) client open_stream s in
        record run {
          returned = map_option (λ r. with_context r "Error while handling commands") run.returned;
        }
    | err e ↦ record { sent = []; returned = some (err e); world = s }
    | panicked ↦ record { sent = []; returned = some panicked; world = s }
  ]

  -- None of the nine insertions is refused.
  pub insertions_lem : (s : S) → insertions s ≡ (ok tt, s)
  unfolding insertions HandlerRegistry.insert_with_output empty_handler_registry
      HashMap.contains_key HashMap.insert
  insertions_lem s = refl

  -- So the worker starts.
  pub internal_handle_commands-run :
      (rt : Runtime S) (client : EventStoreClient S)
      (open_stream : Io S (Streaming CommandProviderInbound)) (s : S)
      → let run = command_worker (greeter_registry rt) client open_stream s in
        internal_handle_commands rt client open_stream s ≡ record run {
          returned = map_option (λ r. with_context r "Error while handling commands") run.returned;
        }
  unfolding internal_handle_commands insertions HandlerRegistry.insert_with_output
      empty_handler_registry HashMap.contains_key HashMap.insert
  internal_handle_commands-run rt client open_stream s = refl
