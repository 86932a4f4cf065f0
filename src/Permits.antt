-- ===== src/Permits.antt =====
-- The flow control of the three output streams: `permits -= 1`, and a batch more when the balance
-- has come down to a batch (src/axon_utils/{command_worker,query_processor,event_processor}.rs).
use rusty_dendrite.Prelude.{
  ℕ, ◌+◌, ◌≤◌, ◌≡◌, refl, ◌⊎◌, inl, inr, Bool, true, false, arith, if◌then◌else◌,
}
use rusty_dendrite.Prelude.Int.{ℤ, pos, pos_part, leb_ℤ, ◌+i64◌, ◌-i64◌}

abbrev pub permits_batch_size : ℤ
permits_batch_size = pos 3

unfoldable pub initial_permits : ℤ
initial_permits = pos 6

-- Whether a batch is granted after a message, and the balance then.
unfoldable pub settle : ℤ → Bool × ℤ
settle permits =
    let permits' = permits -i64 pos 1 in
    if leb_ℤ permits' permits_batch_size
    then (true, permits' +i64 permits_batch_size)
    else (false, permits')

-- The balances that occur between two messages.
abbrev pub Balanced : ℤ → Type 0
Balanced p = (p ≡ pos 4) ⊎ (p ≡ pos 5) ⊎ (p ≡ pos 6)

-- The permits that a decision grants.
abbrev pub granted_by : Bool → ℕ
granted_by true = 3
granted_by false = 0

settle-values :
    (settle (pos 4) ≡ (true, pos 6))
    × (settle (pos 5) ≡ (false, pos 4))
    × (settle (pos 6) ≡ (false, pos 5))
unfolding settle ◌+i64◌ ◌-i64◌
settle-values = (refl, refl, refl)

-- One permit is used, the grant is added, and the balance stays between four and six.
pub settle-Balanced :
    (p : ℤ)
    → Balanced p
    → Balanced (settle p).1 × (granted_by (settle p).0 + pos_part p ≡ pos_part (settle p).1 + 1)
settle-Balanced p (inl e) = rw (e, settle-values.0) (inr (inr refl), omega arith)
settle-Balanced p (inr (inl e)) = rw (e, settle-values.1) (inl refl, omega arith)
settle-Balanced p (inr (inr e)) = rw (e, settle-values.2) (inr (inl refl), omega arith)

-- A grant is decided where the balance comes to six by it.
abbrev pub Decided : Bool × ℤ → Type 0
Decided (true, p) = p ≡ pos 6
Decided (false, p) = Balanced p

pub settle-Decided : (p : ℤ) → Balanced p → Decided (settle p)
settle-Decided p (inl e) = rw (e, settle-values.0) refl
settle-Decided p (inr (inl e)) = rw (e, settle-values.1) (inl refl)
settle-Decided p (inr (inr e)) = rw (e, settle-values.2) (inr (inl refl))

pub Balanced-bounds : (p : ℤ) → Balanced p → (4 ≤ pos_part p) × (pos_part p ≤ 6)
Balanced-bounds p (inl e) = rw e (omega arith, omega arith)
Balanced-bounds p (inr (inl e)) = rw e (omega arith, omega arith)
Balanced-bounds p (inr (inr e)) = rw e (omega arith, omega arith)

pub initial_permits_lem : Balanced initial_permits × (pos_part initial_permits ≡ 6)
unfolding initial_permits
initial_permits_lem = (inr (inr refl), refl)
