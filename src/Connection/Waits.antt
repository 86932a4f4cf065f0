-- ===== src/Connection/Waits.antt =====
-- When the waiting loops return (src/axon_utils/connection.rs).
use rusty_dendrite.Prelude.{
  ℕ, zero, suc, ◌<◌, ◌<>◌, String, ◌≡◌, refl, ap, ◌∙◌, ◌↔◌, Option, none, some, arith,
}
use rusty_dendrite.Io.{Error, Result, ok, err, panicked, Io, attempt}
use rusty_dendrite.Connection.{Transport, wait_for, waited, try_to_connect, wait_for_connection}

module _ {S C : Type 0} (attempt_once : Io S (Option C)) (delay : S → S) where
  -- After some attempts that give nothing, each followed by a delay, one gives a connection.
  pub data ConnectsAfter : ℕ → S → C → S → Type 0 where
    at_once :
        {s s' : S} {conn : C} → attempt_once s ≡ (ok (some conn), s') → ConnectsAfter 0 s conn s'
    after_delay :
        {k : ℕ} {s s₁ s' : S} {conn : C}
        → attempt_once s ≡ (ok none, s₁)
        → ConnectsAfter k (delay s₁) conn s'
        → ConnectsAfter (suc k) s conn s'

  pub wait_for-ConnectsAfter :
      (fuel : ℕ) {k : ℕ} {s s' : S} {conn : C}
      → ConnectsAfter k s conn s'
      → k < fuel
      → wait_for attempt_once delay fuel s ≡ (ok (some conn), s')
  unfolding wait_for waited
  wait_for-ConnectsAfter zero h enough = absurd (omega (arith, enough))
  wait_for-ConnectsAfter (suc fuel) (at_once e) enough = rw e refl
  wait_for-ConnectsAfter (suc fuel) (after_delay e h) enough =
      rw e (wait_for-ConnectsAfter fuel h (omega (arith, enough)))

  abbrev Connects : ℕ → S → C → S → Type 0
  Connects fuel s conn s' = (k : ℕ) × (k < fuel) × ConnectsAfter k s conn s'

  Connects-waited :
      (x : Result (Option C)) (s s₁ s' : S) (conn : C) (fuel : ℕ) (rest : S → Result (Option C) × S)
      → attempt_once s ≡ (x, s₁)
      → ((s₂ : S) → rest s₂ ≡ (ok (some conn), s') → Connects fuel s₂ conn s')
      → waited attempt_once delay (x, s₁) rest ≡ (ok (some conn), s')
      → Connects (suc fuel) s conn s'
  unfolding waited
  Connects-waited (ok (some c)) s s₁ s' conn fuel rest e h returns =
      (0, omega arith, at_once (e ∙ returns))
  Connects-waited (ok none) s s₁ s' conn fuel rest e h returns =
      let (k, less, after) = h (delay s₁) returns in
      (suc k, omega (arith, less), after_delay e after)
  Connects-waited (err x) s s₁ s' conn fuel rest e h returns = absurd (cc (ap (λ p. p.0) returns))
  Connects-waited panicked s s₁ s' conn fuel rest e h returns = absurd (cc (ap (λ p. p.0) returns))

  pub wait_for-Connects :
      (fuel : ℕ) (s s' : S) (conn : C)
      → wait_for attempt_once delay fuel s ≡ (ok (some conn), s')
      → Connects fuel s conn s'
  unfolding wait_for
  wait_for-Connects zero s s' conn e = absurd (cc (ap (λ p. p.0) e))
  wait_for-Connects (suc fuel) s s' conn e =
      Connects-waited (attempt_once s).0 s (attempt_once s).1 s' conn fuel
        (wait_for attempt_once delay fuel) refl (λ s₂ e'. wait_for-Connects fuel s₂ s' conn e') e

module _ {S C : Type 0} (transport : Transport S C) (url label : String) where
  -- If after some attempts that give nothing, each followed by a delay, one attempt gives a
  -- connection, then the waiting loop returns that connection on any fuel above the number of those
  -- attempts.
  pub wait_for_connection_returns :
      (delay : S → S) (fuel k : ℕ) (s s' : S) (conn : C)
      → ConnectsAfter (try_to_connect transport url label) delay k s conn s'
      → k < fuel
      → wait_for_connection transport delay url label fuel s ≡ (ok (some conn), s')
  unfolding wait_for_connection
  wait_for_connection_returns delay fuel k s s' conn h enough =
      wait_for-ConnectsAfter (try_to_connect transport url label) delay fuel h enough

  -- And the waiting loop returns a connection in no other way.
  pub wait_for_connection_connects :
      (delay : S → S) (fuel : ℕ) (s s' : S) (conn : C)
      → wait_for_connection transport delay url label fuel s ≡ (ok (some conn), s')
      → (k : ℕ) × (k < fuel) × ConnectsAfter (try_to_connect transport url label) delay k s conn s'
  unfolding wait_for_connection
  wait_for_connection_connects delay fuel s s' conn e =
      wait_for-Connects (try_to_connect transport url label) delay fuel s s' conn e

  -- On any fuel the waiting loop returns a connection just where after some attempts that give nothing,
  -- fewer than the fuel and each followed by a delay, one attempt gives that connection.
  pub wait_for_connection_iff :
      (delay : S → S) (fuel : ℕ) (s s' : S) (conn : C)
      → ((k : ℕ) × (k < fuel)
          × ConnectsAfter (try_to_connect transport url label) delay k s conn s')
        ↔ (wait_for_connection transport delay url label fuel s ≡ (ok (some conn), s'))
  wait_for_connection_iff delay fuel s s' conn = (
    λ (k, enough, h). wait_for_connection_returns delay fuel k s s' conn h enough,
    wait_for_connection_connects delay fuel s s' conn,
  )

  -- An attempt gives no connection where the server does not answer on it, be it connected or not.
  pub try_to_connect_unanswered :
      (s s₁ s₂ : S) (conn : C) (e : Error)
      → transport.from_shared url ≡ ok tt
      → transport.connect url s ≡ (ok conn, s₁)
      → transport.get_platform_server conn ("Rust client " <> label) s₁ ≡ (err e, s₂)
      → try_to_connect transport url label s ≡ (ok none, s₂)
  unfolding try_to_connect attempt
  try_to_connect_unanswered s s₁ s₂ conn e shared opens unanswered =
      rw (shared, opens, unanswered) refl
