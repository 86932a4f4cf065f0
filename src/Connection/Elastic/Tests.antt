-- ===== src/Connection/Elastic/Tests.antt =====
-- A test of the wait for Elastic Search (src/elastic_search_utils/mod.rs). The world counts the seconds:
-- the node answers from the first second on, and its status is red before the third.
use rusty_dendrite.Prelude.{ℕ, zero, suc, String, ◌≡◌, refl, ap, subst, some, arith, true, ◌==◌}
use rusty_dendrite.Io.{Result, ok, err, message}
use rusty_dendrite.Json.{Value, text, object, no_members, member_and, field}
use rusty_dendrite.Connection.{ElasticTransport, try_to_connect_elastic, wait_for_elastic_search}
use rusty_dendrite.Connection.Elastic.{
  IsUnready, ready, unready, AnswersAfter, answers, fails, wait_for_elastic_search_returns,
}

abbrev status_at : ℕ → String
status_at zero = "red"
status_at (suc zero) = "red"
status_at (suc (suc zero)) = "red"
status_at (suc (suc (suc n))) = "yellow"

abbrev body : String → Value
body status = object (member_and "status" (text status) no_members)

abbrev info_at : ℕ → Result Value
info_at zero = err (message "no node")
info_at (suc n) = ok (body "info")

abbrev node : ElasticTransport ℕ String
node = record {
  single_node = λ url. ok url;
  info = λ client s. (info_at s, s);
  stats = λ client s. (ok (body (status_at s)), s);
}

abbrev second : ℕ → ℕ
second s = suc s

abbrev text_of : Value → String
text_of (text t) = t
text_of _ = ""

status-body : (t : String) → field (body t) "status" ≡ text t
unfolding field
status-body t = refl

red-IsUnready : IsUnready (field (body "red") "status")
unfolding field
red-IsUnready code e = subst (λ (t : String). (t == "red") ≡ true) (ap text_of e) refl

after_three : AnswersAfter node second 3 1 0 "http://elastic-search:9200" 3
unfolding try_to_connect_elastic
after_three = fails {s = 0} {s₁ = 0} (message "no node") refl (
    answers {s = 1} {s₁ = 1} {s' = 3} (body "info") refl refl
      (unready {s = 1} {s₁ = 1} {s' = 3} (body "red") refl red-IsUnready (
        unready {s = 2} {s₁ = 2} {s' = 3} (body "red") refl red-IsUnready
          (ready {s = 3} {s' = 3} (body "yellow") "yellow" refl (status-body "yellow") refl)))
      (omega arith))

wait_for_elastic_search_returns_example :
    wait_for_elastic_search node second 3 2 0 ≡ (ok (some "http://elastic-search:9200"), 3)
wait_for_elastic_search_returns_example =
    wait_for_elastic_search_returns node second 3 2 after_three (omega arith)
