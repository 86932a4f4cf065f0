-- ===== src/Channel/Tests.antt =====
-- Tests of the two tasks that share a channel.
use rusty_dendrite.Prelude.{ℕ, ◌+◌, ◌≡◌, List, [], ◌∷◌, ◌++◌, arith}
use rusty_dendrite.Channel.{drain, System, Reach, here, next, send, receive, start}
use rusty_dendrite.Channel.Delivery.{IsDone, delivers}

-- A stream that yields the running sum, twice.
abbrev sum : ℕ → ℕ → List ℕ × ℕ
sum v n = ((v + n) ∷ (v + n) ∷ [], v + n)

abbrev after_three : System ℕ ℕ ℕ
after_three = record {
  pending = [];
  buffer = 5 ∷ [];
  variables = 4;
  yielded = 4 ∷ [];
  outbox = 4 ∷ [];
}

-- Two sends, and a receive: the sum is yielded once.
reached : Reach sum (start sum 0 (4 ∷ 5 ∷ []) []) after_three
reached =
    next
      (next (next here (send 4 (5 ∷ []) [] 0 [] [] (omega arith)))
        (send 5 [] (4 ∷ []) 0 [] [] (omega arith)))
      (receive 4 [] (5 ∷ []) 0 [])

delivers_example :
    (u : System ℕ ℕ ℕ) × Reach sum after_three u
    × IsDone sum u
    × (u.yielded ≡ [] ++ (drain sum 0 (4 ∷ 5 ∷ [])).0)
delivers_example = delivers sum 0 (4 ∷ 5 ∷ []) [] reached
