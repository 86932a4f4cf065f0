-- ===== src/EventStore/Laws.antt =====
-- What the program relies on of AxonServer and of its environment: a store that keeps the events of
-- each aggregate in order, under consecutive sequence numbers (proto/axon_server/event.proto), while
-- drawing an identifier and reading the clock leave the store alone.
use rusty_dendrite.Prelude.{ℕ, String, ◌≡◌, true, List, [], ◌∷◌, ◌++◌, map, ◌==◌, if◌then◌else◌}
use rusty_dendrite.Prelude.Int.{ℤ, pos, negsuc, ◌+i64◌}
use rusty_dendrite.Io.{ok}
use rusty_dendrite.Runtime.{Runtime, item, end_of_stream}
use rusty_dendrite.EventStore.{Event, EventStoreClient, aggregate_events_request}

-- The number of the last event, and -1 where there is none.
abbrev pub last_from : ℤ → List Event → ℤ
last_from n [] = n
last_from n (e ∷ es) = last_from e.aggregate_sequence_number es

abbrev pub last_sequence_nr : List Event → ℤ
last_sequence_nr es = last_from (negsuc 0) es

-- Events of one aggregate with consecutive numbers.
abbrev pub NumberedFrom : String → ℤ → List Event → Type 0
NumberedFrom id n [] = Unit
NumberedFrom id n (e ∷ es) =
    (e.aggregate_identifier ≡ id)
    × (e.aggregate_sequence_number ≡ n)
    × NumberedFrom id (n +i64 pos 1) es

-- `log s id` is what the store keeps of an aggregate in the world `s`.
pub record IsEventStore {S : Type 0} (rt : Runtime S) (client : EventStoreClient S)
    (log : S → String → List Event) : Type 0 where
  pub lists :
      (id : String) (s : S)
      → client.list_aggregate_events (aggregate_events_request id) s
        ≡ (ok (map item (log s id) ++ end_of_stream ∷ []), s)
  pub highest :
      (id : String) (s : S)
      → client.read_highest_sequence_nr (record { aggregate_id = id; from_sequence_nr = pos 0 }) s
        ≡ (ok (record { to_sequence_nr = last_sequence_nr (log s id) }), s)
  pub appends :
      (id : String) (s : S) (events : List Event)
      → NumberedFrom id (last_sequence_nr (log s id) +i64 pos 1) events
      → (s' : S) × (client.append_event events s ≡ (ok (record { success = true }), s'))
        × ((j : String) → log s' j ≡ (if id == j then log s id ++ events else log s j))
  pub draws : (s : S) (j : String) → log (rt.new_v4 s).1 j ≡ log s j
  pub reads_clock :
      (s : S)
      → (millis : ℕ) × (s' : S) × (rt.since_epoch_millis s ≡ (ok millis, s'))
        × ((j : String) → log s' j ≡ log s j)
