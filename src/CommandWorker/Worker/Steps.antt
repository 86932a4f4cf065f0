-- ===== src/CommandWorker/Worker/Steps.antt =====
-- One round of the loop of `command_worker` (src/axon_utils/command_worker.rs).
use rusty_dendrite.Prelude.{String, ◌≡◌, refl, none, some, [], ◌∷◌, Option}
use rusty_dendrite.Io.{Io, ok, Outcome, attempt}
use rusty_dendrite.Runtime.{item, end_of_stream, Streaming}
use rusty_dendrite.EventStore.{EventStoreClient}
use rusty_dendrite.CommandWorker.Protocol.{Command, CommandProviderInbound, ack, command}
use rusty_dendrite.CommandWorker.Emit.{EmitEventsAndResponse}
use rusty_dendrite.CommandWorker.Aggregate.{AggregateHandle}
use rusty_dendrite.CommandWorker.Registry.{TheAggregateRegistry, registered, find_aggregate}
use rusty_dendrite.CommandWorker.Worker.{
  run_worker, opened, command_worker, worker_loop, handle_request, handle_by, and_then,
}

module _ {S : Type 0} (aggregate_registry : TheAggregateRegistry S) (client : EventStoreClient S)
    (messages : Streaming CommandProviderInbound) (s : S) where
  pub run_worker-command :
      (instruction_id : String) (c : Command) (h : AggregateHandle S)
      (o : Outcome (Option EmitEventsAndResponse)) (s' : S)
      → find_aggregate aggregate_registry
          (registered aggregate_registry).command_to_aggregate_mapping
          c.name
        ≡ some h
      → attempt (h.handle c client) s ≡ (ok o, s')
      → let rest = run_worker aggregate_registry client messages s' in
        run_worker aggregate_registry client
          (item (record { instruction_id = instruction_id; request = some (command c) }) ∷ messages)
          s
        ≡ record {
          sent = record { message_identifier = c.message_identifier; result = o } ∷ rest.sent;
          returned = rest.returned;
          world = rest.world;
        }
  unfolding run_worker worker_loop handle_request handle_by and_then
  run_worker-command instruction_id c h o s' found handled = rw (found, handled) refl

  pub run_worker-ack :
      (instruction_id : String)
      → run_worker aggregate_registry client
          (item (record { instruction_id = instruction_id; request = some ack }) ∷ messages)
          s
        ≡ run_worker aggregate_registry client messages s
  unfolding run_worker worker_loop handle_request and_then
  run_worker-ack instruction_id = refl

  pub run_worker-end_of_stream :
      run_worker aggregate_registry client (end_of_stream ∷ messages) s
      ≡ run_worker aggregate_registry client messages s
  unfolding run_worker worker_loop
  run_worker-end_of_stream = refl

module _ {S : Type 0} (aggregate_registry : TheAggregateRegistry S) (client : EventStoreClient S)
    (s : S) where
  pub run_worker-nil :
      run_worker aggregate_registry client [] s ≡ record { sent = []; returned = none; world = s }
  unfolding run_worker worker_loop
  run_worker-nil = refl

module _ {S : Type 0} (aggregate_registry : TheAggregateRegistry S) (client : EventStoreClient S)
    (open_stream : Io S (Streaming CommandProviderInbound))
    (messages : Streaming CommandProviderInbound) (s s' : S)
    (opens : open_stream s ≡ (ok messages, s')) where
  pub command_worker-run_worker :
      command_worker aggregate_registry client open_stream s
      ≡ run_worker aggregate_registry client messages s'
  unfolding command_worker opened
  command_worker-run_worker = rw opens refl
