-- ===== src/Connection/Tests.antt =====
-- Tests of the waiting loops (src/axon_utils/connection.rs). The world counts the seconds; the server
-- answers from the second second on.
use rusty_dendrite.Prelude.{ℕ, suc, zero, String, ◌<◌, ◌≡◌, refl, ◌↔◌, some, arith}
use rusty_dendrite.Io.{Result, ok, err, message, attempt}
use rusty_dendrite.Connection.{Transport, try_to_connect, wait_for_connection}
use rusty_dendrite.Connection.Waits.{ConnectsAfter, at_once, after_delay, wait_for_connection_iff}

abbrev answer_at : ℕ → Result (Unit {0})
answer_at zero = err (message "not yet")
answer_at (suc zero) = err (message "not yet")
answer_at (suc (suc n)) = ok tt

abbrev server : Transport ℕ String
server = record {
  from_shared = λ url. ok tt;
  connect = λ url s. (ok "connection", s);
  get_platform_server = λ conn name s. (answer_at s, s);
}

abbrev second : ℕ → ℕ
second s = suc s

after_two : ConnectsAfter (try_to_connect server "http://proxy" "API") second 2 0 "connection" 2
unfolding try_to_connect attempt
after_two =
    after_delay {s = 0} {s₁ = 0} refl
      (after_delay {s = 1} {s₁ = 1} refl (at_once {s = 2} {s' = 2} {conn = "connection"} refl))

wait_for_connection_iff_example :
    ((k : ℕ) × (k < 3)
      × ConnectsAfter (try_to_connect server "http://proxy" "API") second k 0 "connection" 2)
    ↔ (wait_for_connection server second "http://proxy" "API" 3 0 ≡ (ok (some "connection"), 2))
wait_for_connection_iff_example =
    wait_for_connection_iff server "http://proxy" "API" second 3 0 2 "connection"

-- So the loop returns here, in its third attempt.
returns : wait_for_connection server second "http://proxy" "API" 3 0 ≡ (ok (some "connection"), 2)
returns =
    (wait_for_connection_iff server "http://proxy" "API" second 3 0 2 "connection").0
      (2, omega arith, after_two)
