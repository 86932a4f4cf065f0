-- ===== src/EventStore/Numbers.antt =====
-- The sequence numbers of an aggregate (proto/axon_server/event.proto).
use rusty_dendrite.Prelude.{
  ℕ, zero, suc, ◌+◌, ◌≤◌, ◌^◌, String, ◌≡◌, refl, subst, ap, ap₂, map, length, List, [], ◌∷◌, ◌++◌,
  arith,
}
use rusty_dendrite.Prelude.Int.{ℤ, pos, negsuc, ◌+i64◌, pos-+i64}
use rusty_dendrite.EventStore.{Event}
use rusty_dendrite.EventStore.Laws.{NumberedFrom, last_from, last_sequence_nr}

NumberedFrom-append :
    (id : String) (n k : ℤ) (es fs : List Event)
    → k +i64 pos 1 ≡ n
    → NumberedFrom id n es
    → NumberedFrom id (last_from k es +i64 pos 1) fs
    → NumberedFrom id n (es ++ fs)
NumberedFrom-append id n k [] fs at h h' = subst (λ m. NumberedFrom id m fs) at h'
NumberedFrom-append id n k (e ∷ es) fs at (owner, number, h) h' = (
  owner,
  number,
  NumberedFrom-append id (n +i64 pos 1) e.aggregate_sequence_number es fs
      (ap (λ (m : ℤ). m +i64 pos 1) number) h h',
)

-- The events of an aggregate are numbered from zero, and stay so when events are added under the
-- numbers that follow the last one.
abbrev pub IsNumbered : String → List Event → Type 0
IsNumbered id es = NumberedFrom id (pos 0) es

pub IsNumbered-append :
    (id : String) (es fs : List Event)
    → IsNumbered id es
    → NumberedFrom id (last_sequence_nr es +i64 pos 1) fs
    → IsNumbered id (es ++ fs)
unfolding ◌+i64◌
IsNumbered-append id es fs h h' = NumberedFrom-append id (pos 0) (negsuc 0) es fs refl h h'

-- k, k + 1, and so on.
abbrev pub counted : ℕ → ℕ → List ℤ
counted k zero = []
counted k (suc n) = pos k ∷ counted (k + 1) n

abbrev pub numbers : List Event → List ℤ
numbers es = map (λ e. e.aggregate_sequence_number) es

numbers-NumberedFrom :
    (id : String) (k : ℕ) (es : List Event)
    → NumberedFrom id (pos k) es
    → k + length es ≤ 2 ^ 63
    → numbers es ≡ counted k (length es)
numbers-NumberedFrom id k [] h fits = refl
numbers-NumberedFrom id k (e ∷ []) (owner, number, h) fits = ap (λ n. n ∷ []) number
numbers-NumberedFrom id k (e ∷ d ∷ es) (owner, number, h) fits =
    ap₂ (λ n l. n ∷ l) number
      (numbers-NumberedFrom id (k + 1) (d ∷ es)
        (subst (λ m. NumberedFrom id m (d ∷ es)) (pos-+i64 k 1 (omega (arith, fits))) h)
        (omega (arith, fits)))

-- As many events as an i64 can count have the numbers from zero on.
pub numbers-IsNumbered :
    (id : String) (es : List Event)
    → IsNumbered id es
    → length es ≤ 2 ^ 63
    → numbers es ≡ counted 0 (length es)
numbers-IsNumbered id es h fits = numbers-NumberedFrom id 0 es h (omega (arith, fits))
