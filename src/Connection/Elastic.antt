-- ===== src/Connection/Elastic.antt =====
-- When the wait for Elastic Search returns (src/elastic_search_utils/mod.rs).
mod Tests
use rusty_dendrite.Prelude.{
  ℕ, zero, suc, ◌<◌, String, ◌≡◌, refl, ap, ◌∙◌, true, false, Option, none, some, arith, ◌==◌,
}
use rusty_dendrite.Io.{Error, Result, ok, err, panicked, Io, pure, ◌>>=◌}
use rusty_dendrite.Json.{Value, null, boolean, number, text, array, object, field}
use rusty_dendrite.Connection.{
  ElasticTransport, wait_for_status_ready, status_ready, try_to_connect_elastic,
  wait_for_elastic_search, retried,
}
use rusty_dendrite.Connection.Waits.{ConnectsAfter, at_once, after_delay, wait_for-ConnectsAfter}

-- A status that is no text, or the text `red`.
abbrev pub IsUnready : Value → Type 0
IsUnready v = (code : String) → v ≡ text code → (code == "red") ≡ true

status_ready-text :
    (v : Value) (code : String) → v ≡ text code → (code == "red") ≡ false → status_ready v ≡ some tt
unfolding status_ready
status_ready-text v code e other = rw (e, other, status_ready) refl

status_ready-IsUnready : (v : Value) → IsUnready v → status_ready v ≡ none
unfolding status_ready
status_ready-IsUnready (text code) h = rw (h code refl, status_ready) refl
status_ready-IsUnready null h = refl
status_ready-IsUnready (boolean b) h = refl
status_ready-IsUnready (number n) h = refl
status_ready-IsUnready (array vs) h = refl
status_ready-IsUnready (object fields) h = refl

module _ {S C : Type 0} (transport : ElasticTransport S C) (delay : S → S) where
  -- After some looks at an unready cluster, each followed by a delay, the cluster is ready.
  pub data ReadyAfter (client : C) : ℕ → S → S → Type 0 where
    ready :
        {s s' : S} (body : Value) (code : String)
        → transport.stats client s ≡ (ok body, s')
        → field body "status" ≡ text code
        → (code == "red") ≡ false
        → ReadyAfter client 0 s s'
    unready :
        {j : ℕ} {s s₁ s' : S} (body : Value)
        → transport.stats client s ≡ (ok body, s₁)
        → IsUnready (field body "status")
        → ReadyAfter client j (delay s₁) s'
        → ReadyAfter client (suc j) s s'

  abbrev look : C → Io S (Option (Unit {0}))
  look client = do
    response_body ← transport.stats client
    pure (status_ready (field response_body "status"))

  ReadyAfter-ConnectsAfter :
      (client : C) {j : ℕ} {s s' : S}
      → ReadyAfter client j s s'
      → ConnectsAfter (look client) delay j s tt s'
  ReadyAfter-ConnectsAfter client (ready body code seen status other) =
      at_once (rw (seen, status_ready-text _ code status other) refl)
  ReadyAfter-ConnectsAfter client (unready body seen h later) =
      after_delay (rw (seen, status_ready-IsUnready _ h) refl)
        (ReadyAfter-ConnectsAfter client later)

  wait_for_status_ready-ReadyAfter :
      (client : C) (inner : ℕ) {j : ℕ} {s s' : S}
      → ReadyAfter client j s s'
      → j < inner
      → wait_for_status_ready transport delay client inner s ≡ (ok (some tt), s')
  unfolding wait_for_status_ready
  wait_for_status_ready-ReadyAfter client inner h enough =
      wait_for-ConnectsAfter (look client) delay inner (ReadyAfter-ConnectsAfter client h) enough

  -- After some attempts that fail, each followed by a delay, a node answers and its cluster comes to
  -- be ready.
  pub data AnswersAfter (inner : ℕ) : ℕ → S → C → S → Type 0 where
    answers :
        {j : ℕ} {s s₁ s' : S} {client : C} (body : Value)
        → transport.single_node "http://elastic-search:9200" ≡ ok client
        → transport.info client s ≡ (ok body, s₁)
        → ReadyAfter client j s₁ s'
        → j < inner
        → AnswersAfter inner 0 s client s'
    fails :
        {k : ℕ} {s s₁ s' : S} {client : C} (e : Error)
        → try_to_connect_elastic transport delay inner s ≡ (err e, s₁)
        → AnswersAfter inner k (delay s₁) client s'
        → AnswersAfter inner (suc k) s client s'

  -- If after some attempts that fail, each followed by a delay, a node answers, and after some looks at
  -- an unready cluster, each followed by a delay, the status is a text other than `red`, then the wait
  -- returns the client of that node, on any fuel above the number of those attempts and any inner fuel
  -- above the number of those looks.
  pub wait_for_elastic_search_returns :
      (inner fuel : ℕ) {k : ℕ} {s s' : S} {client : C}
      → AnswersAfter inner k s client s'
      → k < fuel
      → wait_for_elastic_search transport delay inner fuel s ≡ (ok (some client), s')
  unfolding wait_for_elastic_search retried try_to_connect_elastic
  wait_for_elastic_search_returns inner zero h enough = absurd (omega (arith, enough))
  wait_for_elastic_search_returns inner (suc fuel) (answers {client = client} body node seen h less)
        enough =
      rw (node, seen, wait_for_status_ready-ReadyAfter client inner h less) refl
  wait_for_elastic_search_returns inner (suc fuel) (fails e failed h) enough =
      rw failed (wait_for_elastic_search_returns inner fuel h (omega (arith, enough)))
