-- ===== src/CommandWorker/Store.antt =====
-- `store_events` of src/axon_utils/command_worker.rs: the events of a command are appended to the
-- event store.
pub mod Append
pub mod RoundTrip
pub mod Batch
mod Tests
use rusty_dendrite.Prelude.{String, false, some, List, [], ◌∷◌}
use rusty_dendrite.Prelude.Int.{ℤ, pos, ◌+i64◌}
use rusty_dendrite.Io.{Io, pure, lift, unwrap, ◌>>=◌}
use rusty_dendrite.Messages.{Bytes}
use rusty_dendrite.Runtime.{Runtime, draw_uuid, timestamp_millis}
use rusty_dendrite.EventStore.{Event, EventStoreClient}
use rusty_dendrite.CommandWorker.Emit.{ApplicableTo, EmitApplicableEventsAndResponse}

-- One event of a batch; `highest` is the answer of the server.
unfoldable pub event_message : String → String → ℤ → ℤ → String → Bytes → Event
event_message aggregate_id message_identifier timestamp highest type_name buf = record {
  message_identifier = message_identifier;
  timestamp = timestamp;
  aggregate_identifier = aggregate_id;
  aggregate_sequence_number = highest +i64 pos 1;
  aggregate_type = "Greeting";
  payload = some (record { type = type_name; revision = ""; bytes = buf });
  snapshot = false;
}

module _ {S P : Type 0} where
  unfoldable pub event_messages :
      (String → Bytes → Event) → List (String × ApplicableTo P) → Io S (List Event)
  event_messages make [] = pure []
  event_messages make ((type_name, event) ∷ rest) = do
    buf ← lift (unwrap event.encode_u8)
    messages ← event_messages make rest
    pure (make type_name buf ∷ messages)

  unfoldable pub store_events :
      Runtime S → EventStoreClient S → String → EmitApplicableEventsAndResponse P → Io S (Unit {0})
  store_events rt client aggregate_id events = do
    response ←
        client.read_highest_sequence_nr
          (record { aggregate_id = aggregate_id; from_sequence_nr = pos 0 })
    message_identifier ← draw_uuid rt
    timestamp ← timestamp_millis rt
    messages ←
        event_messages
          (event_message aggregate_id message_identifier timestamp response.to_sequence_nr)
          events.events
    _ ← client.append_event messages
    pure tt
