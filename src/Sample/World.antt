-- ===== src/Sample/World.antt =====
-- A world for the tests: an event store in memory, a clock, a source of identifiers and a token store.
use Prim.Native.String.{[] as empty_text, ◌∷◌ as ◌∷ₜ◌}
use rusty_dendrite.Prelude.{
  ℕ, zero, suc, ◌+◌, String, ◌≡◌, refl, ap, List, [], ◌∷◌, ◌++◌, map, ◌==◌, eq_iff, arith, true,
  sym, append-nil, Bool-cases, inl, inr, if◌then◌else◌,
}
use rusty_dendrite.Prelude.Int.{ℤ, pos, ◌+i64◌}
use rusty_dendrite.Io.{ok}
use rusty_dendrite.Runtime.{Runtime, item, end_of_stream}
use rusty_dendrite.EventStore.{Event, EventStoreClient, aggregate_events_request}
use rusty_dendrite.EventStore.Laws.{IsEventStore, last_sequence_nr, NumberedFrom}
use rusty_dendrite.EventProcessor.{TokenStore}
use rusty_dendrite.Identifiers.{IsInjective}

pub record World : Type 0 where
  pub stored : List Event
  pub drawn : ℕ
  pub clock : ℕ
  pub token : ℤ

-- The n-th identifier is a text of n letters.
abbrev pub sample_uuid : ℕ → String
sample_uuid zero = ""
sample_uuid (suc n) = "u" ∷ₜ sample_uuid n

abbrev letters : String → ℕ
letters empty_text = zero
letters (c ∷ₜ s) = suc (letters s)

letters-sample_uuid : (n : ℕ) → letters (sample_uuid n) ≡ n
letters-sample_uuid zero = refl
letters-sample_uuid (suc n) = ap (λ (k : ℕ). suc k) (letters-sample_uuid n)

pub sample_uuid-IsInjective : IsInjective sample_uuid
sample_uuid-IsInjective i j e =
    omega (arith, ap letters e, letters-sample_uuid i, letters-sample_uuid j)

abbrev pub events_of : List Event → String → List Event
events_of [] id = []
events_of (e ∷ es) id =
    if e.aggregate_identifier == id then e ∷ events_of es id else events_of es id

events_of-append :
    (xs ys : List Event) (id : String)
    → events_of (xs ++ ys) id ≡ events_of xs id ++ events_of ys id
events_of-append [] ys id = refl
events_of-append (x ∷ xs) ys id = ground (arith, events_of-append xs ys id)

events_of-NumberedFrom :
    (id : String) (n : ℤ) (es : List Event) (j : String)
    → NumberedFrom id n es
    → events_of es j ≡ (if id == j then es else [])
events_of-NumberedFrom id n [] j h = ground arith
events_of-NumberedFrom id n (e ∷ es) j (named, numbered, h) =
    rw named (ground (arith, events_of-NumberedFrom id (n +i64 pos 1) es j h))

events_of-stored :
    (stored events : List Event) (id j : String)
    → events_of events j ≡ (if id == j then events else [])
    → events_of (stored ++ events) j
      ≡ (if id == j then events_of stored id ++ events else events_of stored j)
events_of-stored stored events id j h = elim (Bool-cases (id == j)) [
  | inl same ↦
      rw (events_of-append stored events j, h, same)
        (ap (λ k. events_of stored k ++ events) (sym ((eq_iff id j).0 same)))
  | inr other ↦ rw (events_of-append stored events j, h, other) (append-nil (events_of stored j))
]

abbrev pub sample_log : World → String → List Event
sample_log s id = events_of s.stored id

abbrev pub sample_runtime : Runtime World
sample_runtime = record {
  new_v4 = λ s. (sample_uuid s.drawn, record s { drawn = s.drawn + 1 });
  since_epoch_millis = λ s. (ok s.clock, record s { clock = s.clock + 1 });
}

abbrev pub sample_client : EventStoreClient World
sample_client = record {
  list_aggregate_events =
      λ r s. (ok (map item (events_of s.stored r.aggregate_id) ++ end_of_stream ∷ []), s);
  read_highest_sequence_nr = λ r s.
      (ok (record { to_sequence_nr = last_sequence_nr (events_of s.stored r.aggregate_id) }), s);
  append_event =
      λ events s. (ok (record { success = true }), record s { stored = s.stored ++ events });
}

pub sample-IsEventStore : IsEventStore sample_runtime sample_client sample_log
unfolding aggregate_events_request
sample-IsEventStore = record {
  lists = λ id s. refl;
  highest = λ id s. refl;
  appends = λ id s events h. (
    _,
    refl,
    λ j. events_of-stored s.stored events id j (events_of-NumberedFrom id _ events j h),
  );
  draws = λ s j. refl;
  reads_clock = λ s. (_, _, refl, λ j. refl);
}

abbrev pub sample_token_store : TokenStore World
sample_token_store = record {
  store_token = λ token s. record s { token = token };
  retrieve_token = λ s. (ok s.token, s);
}
