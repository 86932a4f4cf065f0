-- ===== src/EventStore.antt =====
-- The event store of AxonServer as a client sees it (proto/axon_server/event.proto), and
-- src/axon_utils/event_query.rs. The maps of meta data, which are always empty, are left out.
pub mod Query
pub mod Laws
pub mod Numbers
mod Tests
use rusty_dendrite.Prelude.{String, Bool, false, Option, List, [], ◌∷◌, ◌++◌}
use rusty_dendrite.Prelude.Int.{ℤ, pos, i64_max}
use rusty_dendrite.Io.{Result, ok, err, message, Io, lift, ◌>>=◌}
use rusty_dendrite.Messages.{SerializedObject}
use rusty_dendrite.Runtime.{Received, item, end_of_stream, failed, Streaming}

pub record Event : Type 0 where
  pub message_identifier : String
  pub aggregate_identifier : String
  pub aggregate_sequence_number : ℤ
  pub aggregate_type : String
  pub timestamp : ℤ
  pub payload : Option SerializedObject
  pub snapshot : Bool

pub record GetAggregateEventsRequest : Type 0 where
  pub aggregate_id : String
  pub initial_sequence : ℤ
  pub allow_snapshots : Bool
  pub max_sequence : ℤ
  pub min_token : ℤ

pub record ReadHighestSequenceNrRequest : Type 0 where
  pub aggregate_id : String
  pub from_sequence_nr : ℤ

pub record ReadHighestSequenceNrResponse : Type 0 where
  pub to_sequence_nr : ℤ

pub record Confirmation : Type 0 where
  pub success : Bool

-- The calls of the generated `EventStoreClient` that the program makes.
pub record EventStoreClient (S : Type 0) : Type 0 where
  pub list_aggregate_events : GetAggregateEventsRequest → Io S (Streaming Event)
  pub read_highest_sequence_nr : ReadHighestSequenceNrRequest → Io S ReadHighestSequenceNrResponse
  pub append_event : List Event → Io S Confirmation

-- The loop of `query_events_from_client`.
collect : List Event → Streaming Event → Result (List Event)
collect result [] = ok result
collect result (item event ∷ stream) = collect (result ++ event ∷ []) stream
collect result (end_of_stream ∷ stream) = ok result
collect result (failed status ∷ stream) = err (message status)

unfoldable pub aggregate_events_request : String → GetAggregateEventsRequest
aggregate_events_request aggregate_identifier = record {
  aggregate_id = aggregate_identifier;
  allow_snapshots = false;
  initial_sequence = pos 0;
  max_sequence = pos i64_max;
  min_token = pos 0;
}

module _ {S : Type 0} where
  unfoldable pub query_events_from_client : EventStoreClient S → String → Io S (List Event)
  unfolding collect
  query_events_from_client client aggregate_identifier = do
    stream ← client.list_aggregate_events (aggregate_events_request aggregate_identifier)
    lift (collect [] stream)
