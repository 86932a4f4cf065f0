-- ===== src/EventStore/Tests.antt =====
-- Tests of the queries of the event store (src/axon_utils/event_query.rs).
use rusty_dendrite.Prelude.{String, ◌≡◌, refl, none, List, [], ◌∷◌, ◌++◌, map, true, false}
use rusty_dendrite.Prelude.Int.{pos}
use rusty_dendrite.Io.{ok, err, message}
use rusty_dendrite.Runtime.{item, end_of_stream, failed}
use rusty_dendrite.EventStore.{Event, EventStoreClient, query_events_from_client}
use rusty_dendrite.EventStore.Query.{query_events-concluded}

abbrev event : String → Event
event id = record {
  message_identifier = id;
  aggregate_identifier = "xxx";
  aggregate_sequence_number = pos 0;
  aggregate_type = "Greeting";
  timestamp = pos 0;
  payload = none;
  snapshot = false;
}

abbrev events : List Event
events = event "a" ∷ event "b" ∷ []

-- A server whose stream ends, and one whose stream fails; the world is a name.
abbrev complete : EventStoreClient String
complete = record {
  list_aggregate_events = λ r s. (ok (map item events ++ end_of_stream ∷ []), s);
  read_highest_sequence_nr = λ r s. (ok (record { to_sequence_nr = pos 1 }), s);
  append_event = λ es s. (ok (record { success = true }), s);
}

abbrev broken : EventStoreClient String
broken = record {
  list_aggregate_events = λ r s. (ok (map item events ++ failed "broken" ∷ []), s);
  read_highest_sequence_nr = λ r s. (ok (record { to_sequence_nr = pos 1 }), s);
  append_event = λ es s. (ok (record { success = true }), s);
}

query_events-concluded_example : query_events_from_client complete "xxx" "s" ≡ (ok events, "s")
query_events-concluded_example =
    query_events-concluded complete "xxx" events end_of_stream [] (ok events) "s" "s" refl refl

broken_query : query_events_from_client broken "xxx" "s" ≡ (err (message "broken"), "s")
broken_query =
    query_events-concluded broken "xxx" events (failed "broken") [] (err (message "broken")) "s" "s"
      refl refl
