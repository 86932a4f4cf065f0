-- ===== src/Channel.antt =====
-- A worker and its output stream, which run as two tasks and share a `tokio::sync::mpsc::channel(10)`:
-- the loops of src/axon_utils/{command_worker,query_processor,event_processor}.rs send one message
-- after the other, and the stream turns each message that it receives into some output, which it
-- yields piece by piece: at each `yield` it is suspended, and the worker may go on.
pub mod Received
pub mod Delivery
mod Tests
use rusty_dendrite.Prelude.{
  ℕ, zero, suc, ◌+◌, ◌≤◌, ◌<◌, ◌≡◌, refl, ap, ap₂, ◌∙◌, ◌⊎◌, inl, inr, List, [], ◌∷◌, ◌++◌,
  append_assoc, append-nil, sym, arith, length, length-append,
}

module _ {A B V : Type 0} (round : V → A → List B × V) where
  -- The output for messages that are received one after the other, and the variables then.
  unfoldable pub drain : V → List A → List B × V
  drain v [] = ([], v)
  drain v (a ∷ rest) = ((round v a).0 ++ (drain (round v a).1 rest).0, (drain (round v a).1 rest).1)

abbrev pub capacity : ℕ
capacity = 10

-- What the worker has still to send, what is in the channel, the variables of the stream, what it has
-- yielded, and what it has still to yield for the message that it received last. The variables are
-- those at the end of the round of that message.
pub record System (A B V : Type 0) : Type 0 where
  pub pending : List A
  pub buffer : List A
  pub variables : V
  pub yielded : List B
  pub outbox : List B

-- What is yielded first, and what is left then.
abbrev pub first : {B : Type 0} → List B → List B
first [] = []
first (b ∷ bs) = b ∷ []

abbrev pub left : {B : Type 0} → List B → List B
left [] = []
left (b ∷ bs) = bs

pub first-left : {B : Type 0} (bs : List B) → first bs ++ left bs ≡ bs
first-left [] = refl
first-left (b ∷ bs) = refl

pub length-left : {B : Type 0} (bs : List B) → length (left bs) ≤ length bs
length-left [] = omega arith
length-left (b ∷ bs) = omega arith

module _ {A B V : Type 0} (round : V → A → List B × V) where
  -- A send waits while the channel is full; a receive waits while it is empty, and goes on to the first
  -- `yield` for the message. For each further `yield` the stream is polled again.
  pub data Step : System A B V → System A B V → Type 0 where
    send :
        (a : A) (pending buffer : List A) (v : V) (out left_to_yield : List B)
        → length buffer < capacity
        → Step
            (record {
              pending = a ∷ pending;
              buffer = buffer;
              variables = v;
              yielded = out;
              outbox = left_to_yield;
            })
            (record {
              pending = pending;
              buffer = buffer ++ a ∷ [];
              variables = v;
              yielded = out;
              outbox = left_to_yield;
            })
    receive :
        (a : A) (pending buffer : List A) (v : V) (out : List B)
        → Step
            (record {
              pending = pending;
              buffer = a ∷ buffer;
              variables = v;
              yielded = out;
              outbox = [];
            })
            (record {
              pending = pending;
              buffer = buffer;
              variables = (round v a).1;
              yielded = out ++ first (round v a).0;
              outbox = left (round v a).0;
            })
    poll :
        (b : B) (pending buffer : List A) (v : V) (out left_to_yield : List B)
        → Step
            (record {
              pending = pending;
              buffer = buffer;
              variables = v;
              yielded = out;
              outbox = b ∷ left_to_yield;
            })
            (record {
              pending = pending;
              buffer = buffer;
              variables = v;
              yielded = out ++ b ∷ [];
              outbox = left_to_yield;
            })

  pub data Reach (s : System A B V) : System A B V → Type 0 where
    here : Reach s s
    next : {t u : System A B V} → Reach s t → Step t u → Reach s u

  -- A system whose stream has yielded its opening and asks for a first message.
  abbrev pub start : V → List A → List B → System A B V
  start v messages out = record {
    pending = messages;
    buffer = [];
    variables = v;
    yielded = out;
    outbox = [];
  }
