-- ===== src/CommandWorker/Worker.antt =====
-- `command_worker` of src/axon_utils/command_worker.rs: the loop that handles the messages of the
-- server. The results that it sends to the output stream are its output; the runs
-- are those in which the channel has its receiver, and the panic of a send without one is left out.
pub mod Answers
pub mod Steps
use rusty_dendrite.Prelude.{String, Option, none, some, List, [], ◌∷◌}
use rusty_dendrite.Io.{Result, ok, err, panicked, message, Outcome, Io, pure, attempt, ◌>>=◌}
use rusty_dendrite.Runtime.{item, end_of_stream, failed, Streaming}
use rusty_dendrite.HashMap.{HashMap}
use rusty_dendrite.EventStore.{EventStoreClient}
use rusty_dendrite.CommandWorker.Protocol.{
  Command, CommandProviderInbound, InboundRequest, ack, command,
}
use rusty_dendrite.CommandWorker.Emit.{EmitEventsAndResponse}
use rusty_dendrite.CommandWorker.Aggregate.{AggregateHandle}
use rusty_dendrite.CommandWorker.Registry.{TheAggregateRegistry, find_aggregate, registered}

pub record AxonCommandResult : Type 0 where
  pub message_identifier : String
  pub result : Outcome (Option EmitEventsAndResponse)

-- How a run stands: what was sent, the result of the function if it has returned, and the world.
pub record Run (S : Type 0) : Type 0 where
  pub sent : List AxonCommandResult
  pub returned : Option (Result (Unit {0}))
  pub world : S

module _ {S : Type 0} (aggregate_registry : TheAggregateRegistry S) (mapping : HashMap String)
    (client : EventStoreClient S) where
  handle_by : Option (AggregateHandle S) → Command → Io S (Option EmitEventsAndResponse)
  handle_by none c s = (err (message "Could not find aggregate handler"), s)
  handle_by (some aggregate) c s = aggregate.handle c client s

  handle_request : Option InboundRequest → Io S (Option AxonCommandResult)
  unfolding handle_by
  handle_request (some (command c)) = do
    result ← attempt (handle_by (find_aggregate aggregate_registry mapping c.name) c)
    pure (some (record { message_identifier = c.message_identifier; result = result }))
  handle_request (some ack) = pure none
  handle_request none = pure none

  -- One round of the loop, and the rounds after it.
  and_then : Result (Option AxonCommandResult) × S → (S → Run S) → Run S
  and_then (ok none, s) rest = rest s
  and_then (ok (some result), s) rest = record {
    sent = result ∷ (rest s).sent;
    returned = (rest s).returned;
    world = (rest s).world;
  }
  and_then (err e, s) rest = record { sent = []; returned = some (err e); world = s }
  and_then (panicked, s) rest = record { sent = []; returned = some panicked; world = s }

  -- `Ok(None)` is passed over: the loop ends by an error of the stream alone.
  worker_loop : Streaming CommandProviderInbound → S → Run S
  unfolding handle_request and_then
  worker_loop [] s = record { sent = []; returned = none; world = s }
  worker_loop (item inbound ∷ messages) s =
      and_then (handle_request inbound.request s) (worker_loop messages)
  worker_loop (end_of_stream ∷ messages) s = worker_loop messages s
  worker_loop (failed code ∷ messages) s = record {
    sent = [];
    returned = some (err (message code));
    world = s;
  }

module _ {S : Type 0} (aggregate_registry : TheAggregateRegistry S)
    (client : EventStoreClient S) where
  -- The loop over the messages of a stream that was opened.
  unfoldable pub run_worker : Streaming CommandProviderInbound → S → Run S
  unfolding registered worker_loop
  run_worker =
      worker_loop aggregate_registry (registered aggregate_registry).command_to_aggregate_mapping
        client

  opened : Result (Streaming CommandProviderInbound) × S → Run S
  opened (ok messages, s) = run_worker messages s
  opened (err e, s) = record { sent = []; returned = some (err e); world = s }
  opened (panicked, s) = record { sent = []; returned = some panicked; world = s }

  -- `open_stream` is the call of the generated client, with the output stream as its argument.
  unfoldable pub command_worker : Io S (Streaming CommandProviderInbound) → S → Run S
  unfolding opened
  command_worker open_stream s = opened (open_stream s)
