-- ===== src/CommandWorker/Store/Batch.antt =====
-- The sequence numbers of a batch of events in `store_events`
-- (src/axon_utils/command_worker.rs).
use rusty_dendrite.Prelude.{
  ℕ, suc, ◌≤◌, String, ◌≡◌, refl, sym, subst, ◌∙◌, List, [], ◌∷◌, arith, length, All,
}
use rusty_dendrite.Prelude.Int.{ℤ, pos, ◌+i64◌, add-one-ne}
use rusty_dendrite.Io.{Result, ok, err, panicked, Io, unwrap, pure, next, ◌>>=◌}
use rusty_dendrite.Messages.{Bytes}
use rusty_dendrite.EventStore.{Event}
use rusty_dendrite.EventStore.Laws.{NumberedFrom}
use rusty_dendrite.CommandWorker.Emit.{ApplicableTo}
use rusty_dendrite.CommandWorker.Store.{event_message, event_messages}

-- What is true of every message of a batch, and of their number.
abbrev OkAll : {S : Type 0} (n : ℤ) (k : ℕ) → Result (List Event) × S → Type 0
OkAll n k (ok messages, s) =
    All (λ e. e.aggregate_sequence_number ≡ n) messages × (length messages ≡ k)
OkAll n k (err e, s) = Unit
OkAll n k (panicked, s) = Unit

module _ {S : Type 0} (n : ℤ) (k : ℕ) (e : Event) (numbered : e.aggregate_sequence_number ≡ n) where
  OkAll-cons :
      (r : Result (List Event)) (s : S)
      → OkAll n k (r, s)
      → OkAll n (suc k) (next (λ messages. pure {S = S} (e ∷ messages)) r s)
  OkAll-cons (ok messages) s h = ((numbered, h.0), omega (arith, h.1))
  OkAll-cons (err e) s h = tt
  OkAll-cons panicked s h = tt

module _ {S : Type 0} (n : ℤ) (k : ℕ) (make : Bytes → Event)
    (numbered : (buf : Bytes) → (make buf).aggregate_sequence_number ≡ n) where
  OkAll-encoded :
      (x : Result Bytes) (m : Io S (List Event)) (s : S)
      → OkAll n k (m s)
      → OkAll n
          (suc k)
          (next (λ buf. m >>= λ messages. pure {S = S} (make buf ∷ messages)) (unwrap x) s)
  OkAll-encoded (ok buf) m s h = OkAll-cons n k (make buf) (numbered buf) (m s).0 (m s).1 h
  OkAll-encoded (err e) m s h = tt
  OkAll-encoded panicked m s h = tt

two_numbers :
    (id : String) (n m : ℤ) (messages : List Event)
    → All (λ e. e.aggregate_sequence_number ≡ n) messages
    → 2 ≤ length messages
    → ¬ NumberedFrom id m messages
two_numbers id n m [] all h _ = omega arith
two_numbers id n m (a ∷ []) all h _ = omega arith
two_numbers id n m (a ∷ b ∷ rest) all h numbered =
    add-one-ne m (sym numbered.2.1 ∙ all.1.0 ∙ sym all.0 ∙ numbered.1)

module _ {S P : Type 0} (id message_identifier : String) (timestamp highest : ℤ) where
  event_messages-numbers :
      (events : List (String × ApplicableTo P)) (s : S)
      → OkAll
          (highest +i64 pos 1)
          (length events)
          (event_messages (event_message id message_identifier timestamp highest) events s)
  unfolding event_messages event_message
  event_messages-numbers [] s = (tt, refl)
  event_messages-numbers ((type_name, event) ∷ events) s =
      OkAll-encoded (highest +i64 pos 1) (length events)
        (event_message id message_identifier timestamp highest type_name) (λ buf. refl)
        event.encode_u8 _ s (event_messages-numbers events s)

  -- The messages that `store_events` makes of a command with two or more events all have the number
  -- after the highest one of the aggregate, so they are not numbered consecutively from any number:
  -- the second event does not get a number of its own.
  pub event_messages-not_consecutive :
      (events : List (String × ApplicableTo P)) (s s' : S) (messages : List Event) (n : ℤ)
      → 2 ≤ length events
      → event_messages (event_message id message_identifier timestamp highest) events s
        ≡ (ok messages, s')
      → All (λ e. e.aggregate_sequence_number ≡ highest +i64 pos 1) messages
        × (length messages ≡ length events)
        × (¬ NumberedFrom id n messages)
  event_messages-not_consecutive events s s' messages n two e =
      let (all, count) =
        subst (OkAll (highest +i64 pos 1) (length events)) e (event_messages-numbers events s) in
      (all, count, two_numbers id _ n messages all (omega (arith, count)))
