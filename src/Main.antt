-- ===== src/Main.antt =====
-- src/main.rs, and the functions by which it starts the application: `init` of
-- src/axon_utils/command_submit.rs and of src/example_api/mod.rs, and the outer functions of
-- src/example_command/mod.rs, src/example_event/mod.rs and src/example_query/mod.rs, which end a task.
pub mod Starts
pub mod Tasks
pub mod Acknowledged
pub mod Found
mod Tests
use rusty_dendrite.Prelude.{ℕ, String, Option, none, some, [], map_option}
use rusty_dendrite.Prelude.Int.{ℤ}
use rusty_dendrite.Io.{Result, ok, err, panicked, Io, pure, lift, unwrap, ◌>>=◌, ◌>>◌}
use rusty_dendrite.Messages.{Codec}
use rusty_dendrite.Runtime.{Runtime, Streaming}
use rusty_dendrite.EventStore.{EventStoreClient}
use rusty_dendrite.CommandWorker.Protocol.{CommandProviderInbound}
use rusty_dendrite.CommandWorker.Worker
use rusty_dendrite.EventProcessor
use rusty_dendrite.EventProcessor.{Events, EventWithToken}
use rusty_dendrite.QueryProcessor
use rusty_dendrite.QueryProcessor.{QueryProviderInbound}
use rusty_dendrite.Connection.{
  Transport, ElasticTransport, AxonConnection, wait_for_server, wait_for_elastic_search,
}
use rusty_dendrite.ExampleCommand.{Codecs}
use rusty_dendrite.ExampleCommand.Setup.{internal_handle_commands}
use rusty_dendrite.ExampleApi.{SearchQuery, SearchResponse}
use rusty_dendrite.ExampleEvent
use rusty_dendrite.ExampleQuery

-- What the program takes from its libraries: the clients that the generated code makes of a connection,
-- and those that the library of Elastic Search makes of a node.
pub record Environment (S C E : Type 0) : Type 0 where
  pub runtime : Runtime S
  pub delay : S → S
  pub transport : Transport S C
  pub elastic : ElasticTransport S E
  pub event_store : C → EventStoreClient S
  pub open_commands : C → Io S (Streaming CommandProviderInbound)
  pub list_events : C → ℤ → Io S Events
  pub open_queries : C → Io S (Streaming QueryProviderInbound)
  pub indexer : E → ExampleEvent.Elasticsearch S
  pub searcher : E → ExampleQuery.Elasticsearch S
  pub hash : String → String
  pub codecs : Codecs
  pub search_query : Codec SearchQuery
  pub search_response : Codec SearchResponse

pub record AxonServerHandle (C : Type 0) : Type 0 where
  pub display_name : String
  pub conn : C

pub record GreeterServer (C : Type 0) : Type 0 where
  pub axon_server_handle : AxonServerHandle C

-- The three futures that are spawned, each with what it does when it is run through from a world.
pub data Task (S : Type 0) : Type 0 where
  handle_commands : (S → Worker.Run S) → Task S
  process_events : (S → EventProcessor.Run S) → Task S
  process_queries : (S → QueryProcessor.Run S) → Task S

-- `if let Err(e) = … { error!(…); }`: an error is logged, and a panic ends the task as such.
swallowed : Option (Result (Unit {0})) → Option (Result (Unit {0}))
swallowed none = none
swallowed (some (ok _)) = some (ok tt)
swallowed (some (err e)) = some (ok tt)
swallowed (some panicked) = some panicked

command_sink : {C : Type 0} → AxonConnection C → AxonServerHandle C
command_sink axon_connection = record {
  display_name = axon_connection.id;
  conn = axon_connection.conn;
}

module _ {S C E : Type 0} (env : Environment S C E) where
  -- `init_command_sender`. The wait runs on fuel; `none` says that it goes on.
  unfoldable pub init_command_sender : ℕ → Io S (Option (AxonServerHandle C))
  unfolding command_sink
  init_command_sender fuel s =
      let waited =
        wait_for_server env.transport env.runtime env.delay "proxy" "8124" "API" fuel s in
      (do axon_connection ← lift (unwrap waited.0); pure (map_option command_sink axon_connection))
        waited.1

  -- `init` of src/example_api/mod.rs.
  unfoldable pub init : ℕ → Io S (Option (GreeterServer C))
  init fuel = do
    sink ← init_command_sender fuel
    pure (map_option (λ command_sink. record { axon_server_handle = command_sink }) sink)

  -- The task of the command worker.
  pub run_commands : AxonServerHandle C → S → Worker.Run S
  unfolding swallowed
  run_commands handle s =
      let run =
        internal_handle_commands env.codecs env.runtime (env.event_store handle.conn)
          (env.open_commands handle.conn) s in
      record run { returned = swallowed run.returned }

  -- The wait for Elastic Search, and what follows it.
  events_behind : AxonServerHandle C → Result (Option E) × S → EventProcessor.Run S
  events_behind handle (ok (some client), s) =
      ExampleEvent.process_events env.hash (env.indexer client) env.codecs.greeted_event.decode
        (env.list_events handle.conn) s
  events_behind handle (ok none, s) = record { processed = []; returned = none; world = s }
  events_behind handle (err e, s) = record { processed = []; returned = some (err e); world = s }
  events_behind handle (panicked, s) = record {
    processed = [];
    returned = some panicked;
    world = s;
  }

  -- The task of the event processor; `inner` is the fuel of each wait for the status.
  pub run_events : ℕ → ℕ → AxonServerHandle C → S → EventProcessor.Run S
  unfolding swallowed events_behind
  run_events inner fuel handle s =
      let run = events_behind handle (wait_for_elastic_search env.elastic env.delay inner fuel s) in
      record run { returned = swallowed run.returned }

  queries_behind : AxonServerHandle C → Result (Option E) × S → QueryProcessor.Run S
  queries_behind handle (ok (some client), s) =
      ExampleQuery.process_queries env.search_response env.search_query.decode (env.searcher client)
        (env.open_queries handle.conn) s
  queries_behind handle (ok none, s) = record { sent = []; returned = none; world = s }
  queries_behind handle (err e, s) = record { sent = []; returned = some (err e); world = s }
  queries_behind handle (panicked, s) = record { sent = []; returned = some panicked; world = s }

  -- The task of the query processor.
  pub run_queries : ℕ → ℕ → AxonServerHandle C → S → QueryProcessor.Run S
  unfolding swallowed queries_behind
  run_queries inner fuel handle s =
      let run =
        queries_behind handle (wait_for_elastic_search env.elastic env.delay inner fuel s) in
      record run { returned = swallowed run.returned }

  module _ (spawn : Task S → S → S) (inner task_fuel : ℕ) (parse : String → Result (Unit {0}))
      (serve : GreeterServer C → Io S (Unit {0})) where
    -- `main` once there is a server: `spawn` is `tokio::spawn`, and `serve` the service of the calls of
    -- the API at the address. The tasks that wait for Elastic Search have fuel of their own.
    pub start : GreeterServer C → Io S (Option (Unit {0}))
    start greeter_server s =
        let handle = greeter_server.axon_server_handle in
        let s₁ = spawn (handle_commands (run_commands handle)) s in
        let s₂ = spawn (process_events (run_events inner task_fuel handle)) s₁ in
        let s₃ = spawn (process_queries (run_queries inner task_fuel handle)) s₂ in
        (do lift (parse "0.0.0.0:8181"); serve greeter_server; pure (some tt)) s₃

    -- `none` says that the wait for the server goes on.
    started : Option (GreeterServer C) → Io S (Option (Unit {0}))
    started none s = (ok none, s)
    started (some greeter_server) s = start greeter_server s

    pub main : ℕ → Io S (Option (Unit {0}))
    unfolding started
    main fuel s =
        let server = init fuel s in
        (do greeter_server ← lift (unwrap server.0); started greeter_server) server.1
