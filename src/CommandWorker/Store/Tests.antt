-- ===== src/CommandWorker/Store/Tests.antt =====
-- Tests of `store_events` (src/axon_utils/command_worker.rs) in a sample world.
use rusty_dendrite.Prelude.{
  ℕ, ◌+◌, String, ◌≡◌, refl, none, some, List, [], ◌∷◌, ◌++◌, arith, length, All, ◌==◌,
  if◌then◌else◌,
}
use rusty_dendrite.Prelude.Int.{pos, negsuc, ◌+i64◌}
use rusty_dendrite.Io.{Result, ok, err, message}
use rusty_dendrite.Messages.{Bytes, Codec}
use rusty_dendrite.EventStore.{Event}
use rusty_dendrite.EventStore.Laws.{last_sequence_nr, NumberedFrom}
use rusty_dendrite.CommandWorker.Emit.{ApplicableTo, EmitApplicableEventsAndResponse}
use rusty_dendrite.CommandWorker.Store.{event_message, event_messages, store_events}
use rusty_dendrite.CommandWorker.Store.Append.{store_events_one}
use rusty_dendrite.CommandWorker.Store.Batch.{event_messages-not_consecutive}
use rusty_dendrite.CommandWorker.Store.RoundTrip.{query_events-store_events}
use rusty_dendrite.EventStore.{query_events_from_client}
use rusty_dendrite.EventStore.Query.{query_events-end_of_stream}
use rusty_dendrite.Sample.World.{
  World, sample_log, sample_runtime, sample_client, sample-IsEventStore,
}

abbrev empty_world : World
empty_world = record { stored = []; drawn = 0; clock = 7; token = negsuc 0 }

-- Events of a projection that is a number, and their encodings.
abbrev event : ℕ → ApplicableTo ℕ
event n = record { encode_u8 = ok (n ∷ []); apply_to = λ p. ok (p + n) }

abbrev one_event : EmitApplicableEventsAndResponse ℕ
one_event = record { events = ("Added", event 3) ∷ []; response = none }

abbrev first_byte : Bytes → Result ℕ
first_byte [] = err (message "empty")
first_byte (n ∷ buf) = ok n

none_stored :
    (id : String) → query_events_from_client sample_client id empty_world ≡ (ok [], empty_world)
none_stored id =
    query_events-end_of_stream sample_client id empty_world empty_world [] []
      (sample-IsEventStore.lists id empty_world)

store_events_one_example :
    (s' : World) × (e : Event) × (store_events sample_runtime sample_client "a" one_event
        empty_world
      ≡ (ok tt, s'))
    × (e.payload ≡ some (record { type = "Added"; revision = ""; bytes = 3 ∷ [] }))
    × (e.aggregate_identifier ≡ "a")
    × (e.aggregate_sequence_number ≡ last_sequence_nr (sample_log empty_world "a") +i64 pos 1)
    × ((j : String)
        → sample_log s' j
          ≡ (if "a" == j then sample_log empty_world "a" ++ e ∷ [] else sample_log empty_world j))
store_events_one_example =
    store_events_one sample_runtime sample_client sample_log sample-IsEventStore "a" "Added"
      (event 3) (3 ∷ []) one_event empty_world refl refl

-- The encoding of a number, which reads one byte.
abbrev number_codec : Codec ℕ
number_codec = record { encode = λ n. ok (n ∷ []); decode = λ buf. first_byte buf }

query_events-store_events_example :
    let s' = (store_events sample_runtime sample_client "a" one_event empty_world).1 in
    (e : Event) × (query_events_from_client sample_client "a" s' ≡ (ok ([] ++ e ∷ []), s'))
    × ((payload : Bytes) × (e.payload
          ≡ some (record { type = "Added"; revision = ""; bytes = payload }))
        × (number_codec.decode payload ≡ ok 3))
    × (query_events_from_client sample_client "b" s' ≡ (ok [], s'))
query_events-store_events_example =
    query_events-store_events sample_runtime sample_client sample_log sample-IsEventStore
      number_codec 3 "a" "b" "Added" (event 3) (3 ∷ []) one_event [] [] empty_world refl refl refl
      refl (none_stored "a") (none_stored "b")

abbrev two_events : List (String × ApplicableTo ℕ)
two_events = ("Added", event 3) ∷ ("Added", event 4) ∷ []

abbrev stored_event : ℕ → Event
stored_event n = event_message "a" "id" (pos 0) (pos 8) "Added" (n ∷ [])

two_events-messages :
    event_messages (event_message "a" "id" (pos 0) (pos 8)) two_events empty_world
    ≡ (ok (stored_event 3 ∷ stored_event 4 ∷ []), empty_world)
unfolding event_messages
two_events-messages = refl

event_messages-not_consecutive_example :
    All (λ e. e.aggregate_sequence_number ≡ pos 8 +i64 pos 1) (stored_event 3 ∷ stored_event 4 ∷ [])
    × (length (stored_event 3 ∷ stored_event 4 ∷ []) ≡ length two_events)
    × (¬ NumberedFrom "a" (pos 9) (stored_event 3 ∷ stored_event 4 ∷ []))
event_messages-not_consecutive_example =
    event_messages-not_consecutive "a" "id" (pos 0) (pos 8) two_events empty_world empty_world
      (stored_event 3 ∷ stored_event 4 ∷ []) (pos 9) (omega arith) two_events-messages
