-- ===== src/Connection.antt =====
-- src/axon_utils/connection.rs and src/elastic_search_utils/mod.rs: the loops that wait until a server
-- can be used. A loop that may go on for ever runs on fuel, one unit for each attempt; a run that has
-- used up its fuel is still waiting, and its result is `none`.
pub mod Waits
pub mod Elastic
mod Tests
use rusty_dendrite.Prelude.{
  ℕ, zero, suc, String, ◌<>◌, Bool, true, false, not, Option, none, some, ◌==◌,
}
use rusty_dendrite.Io.{
  Result, ok, err, panicked, Outcome, done, raised, Io, pure, lift, attempt, ◌>>=◌, ◌>>◌,
}
use rusty_dendrite.Runtime.{Runtime, draw_uuid}
use rusty_dendrite.Json.{Value, null, boolean, number, text, array, object, field}

module _ {S C : Type 0} (attempt_once : Io S (Option C)) (delay : S → S) where
  waited : Result (Option C) × S → (S → Result (Option C) × S) → Result (Option C) × S
  waited (ok (some conn), s) rest = (ok (some conn), s)
  waited (ok none, s) rest = rest (delay s)
  waited (err e, s) rest = (err e, s)
  waited (panicked, s) rest = (panicked, s)

  -- An attempt that gives nothing is made again after a delay; an error ends the loop.
  unfoldable pub wait_for : ℕ → Io S (Option C)
  unfolding waited
  wait_for zero s = (ok none, s)
  wait_for (suc fuel) s = waited (attempt_once s) (wait_for fuel)

-- The calls of the transport that `connect` makes; `from_shared` checks the address.
pub record Transport (S C : Type 0) : Type 0 where
  pub from_shared : String → Result (Unit {0})
  pub connect : String → Io S C
  pub get_platform_server : C → String → Io S (Unit {0})

pub record AxonConnection (C : Type 0) : Type 0 where
  pub id : String
  pub conn : C

available : {C : Type 0} → C → Outcome (Unit {0}) → Option C
available conn (done response) = some conn
available conn (raised e) = none

-- `.ok().flatten()`.
flattened : {C : Type 0} → Outcome (Option C) → Option C
flattened (done o) = o
flattened (raised e) = none

module _ {S C : Type 0} (transport : Transport S C) where
  connected : String → Outcome C → Io S (Option C)
  unfolding available
  connected label (raised e) s = (ok none, s)
  connected label (done conn) s =
      (do
        response ← attempt (transport.get_platform_server conn ("Rust client " <> label))
        pure (available conn response))
        s

  connect : String → String → Io S (Option C)
  unfolding connected
  connect url label = do
    lift (transport.from_shared url)
    conn ← attempt (transport.connect url)
    connected label conn

  unfoldable pub try_to_connect : String → String → Io S (Option C)
  unfolding connect flattened
  try_to_connect url label = do conn ← attempt (connect url label); pure (flattened conn)

  unfoldable pub wait_for_connection : (S → S) → String → String → ℕ → Io S (Option C)
  unfolding wait_for
  wait_for_connection delay url label fuel = wait_for (try_to_connect url label) delay fuel

  -- `port` is printed by the caller, as `format!` does.
  unfoldable pub wait_for_server :
      Runtime S → (S → S) → String → String → String → ℕ → Io S (Option (AxonConnection C))
  wait_for_server rt delay host port label fuel = do
    conn ← wait_for_connection delay ("http://" <> host <> ":" <> port) label fuel
    elim conn [
      | none ↦ pure none
      | some c ↦ do uuid ← draw_uuid rt; pure (some (record { id = uuid; conn = c }))
    ]

-- `if let Some(Value::String(status_code)) = status { if *status_code != "red" { … } }`.
status_ready : Value → Option (Unit {0})
status_ready (text status_code) = elim (status_code == "red") [ true ↦ none | false ↦ some tt ]
status_ready null = none
status_ready (boolean b) = none
status_ready (number n) = none
status_ready (array vs) = none
status_ready (object fields) = none

-- The calls of the Elastic Search client: its construction, its information, and the statistics of
-- the cluster as JSON.
pub record ElasticTransport (S C : Type 0) : Type 0 where
  pub single_node : String → Result C
  pub info : C → Io S Value
  pub stats : C → Io S Value

module _ {S C : Type 0} (transport : ElasticTransport S C) (delay : S → S) where
  unfoldable pub wait_for_status_ready : C → ℕ → Io S (Option (Unit {0}))
  unfolding wait_for status_ready
  wait_for_status_ready client fuel =
      wait_for
        (do
          response_body ← transport.stats client
          pure (status_ready (field response_body "status")))
        delay fuel

  unfoldable pub try_to_connect_elastic : ℕ → Io S (Option C)
  unfolding wait_for_status_ready
  try_to_connect_elastic fuel = do
    client ← lift (transport.single_node "http://elastic-search:9200")
    _ ← transport.info client
    ready ← wait_for_status_ready client fuel
    elim ready [ none ↦ pure none | some _ ↦ pure (some client) ]

  retried : Result (Option C) × S → (S → Result (Option C) × S) → Result (Option C) × S
  retried (ok client, s) rest = (ok client, s)
  retried (err e, s) rest = rest (delay s)
  retried (panicked, s) rest = (panicked, s)

  -- `inner` is the fuel of each wait for the status.
  unfoldable pub wait_for_elastic_search : ℕ → ℕ → Io S (Option C)
  unfolding retried
  wait_for_elastic_search inner zero s = (ok none, s)
  wait_for_elastic_search inner (suc fuel) s =
      retried (try_to_connect_elastic inner s) (wait_for_elastic_search inner fuel)
