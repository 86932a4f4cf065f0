-- ===== src/Lib.antt =====
-- Dendrite: a client of AxonServer in Rust, by which an application handles commands, events and
-- queries, with an example application (the greeter). This library models its core and shows what
-- the core does.
--
-- The parts of the program and the files that model them:
--   * src/axon_utils/handler_registry.rs: HandlerRegistry. Handlers are registered by a name, with a
--     decoder of their payloads; the other parts find them by the names of commands, events and
--     queries.
--   * src/axon_utils/command_worker.rs: CommandWorker, with child modules. Protocol has the messages
--     that it exchanges; Emit what a command handler returns; Store is `store_events`; Aggregate is
--     `handle_command`; Registry is `TheAggregateRegistry`; Worker is the loop of `command_worker`,
--     and Output its `create_output_stream`.
--   * src/axon_utils/query_processor.rs: QueryProcessor, and QueryProcessor/Output for its
--     `create_output_stream`.
--   * src/axon_utils/event_processor.rs: EventProcessor.
--   * src/axon_utils/event_query.rs: EventStore, with the calls of the generated client of the event
--     store.
--   * src/axon_utils/mod.rs: Messages (`axon_serialize`), and CommandWorker/Emit (`ApplicableTo`).
--   * src/axon_utils/command_submit.rs and query_submit.rs: CommandSubmit and QuerySubmit.
--   * src/axon_utils/connection.rs and src/elastic_search_utils/mod.rs: Connection.
--   * src/example_command/mod.rs: ExampleCommand. Setup is `internal_handle_commands`; Spec says what
--     the greeter is meant to do, with no reference to payloads or stores, and Session what that
--     means for a session with many commands.
--   * src/example_api/mod.rs: ExampleApi, the calls of the greeter's service.
--   * src/example_event/mod.rs and src/example_query/mod.rs: ExampleEvent and ExampleQuery, over the
--     JSON values of Json.
--   * src/main.rs: Main, with the functions that start the application and end its tasks.
-- They interact as in the program: the command worker finds the aggregate of a command in its
-- registry, the aggregate restores its projection from the event store by its sourcing handlers, runs
-- the command handler, and appends the events to the event store; the worker sends the result over a
-- channel to its output stream, which answers the server and grants it permits for more commands. The
-- API sends commands and queries to the server; the event processor writes greetings to Elastic Search,
-- where the query processor finds them.
--
-- How the code is modelled:
--   * Io: a call is a function from a world to a result and a world; `?` passes an error on, and a
--     panic is a result of its own. A client of the server is a record of such functions, and what
--     the servers are relied on for stands in EventStore/Laws (IsEventStore), EventProcessor/Tokens
--     (IsTokenStore, ListsTokens), ExampleApi/Routing (Routes), ExampleEvent/Resumes (KeepsDocuments),
--     ExampleQuery/Served (RoutesQueries), ExampleQuery/Greeted (FromDocuments) and ExampleQuery/Hits
--     (Searches). A search sees the documents as of the last refresh of the index, which the program
--     does not ask for; Searches says of an answer that has hits and is complete that they are such
--     documents, ten at most to a page, and a result on a search has as a condition that the index
--     was refreshed. `Uuid::new_v4` and the clock are calls of a Runtime.
--   * A stream of messages is the list of what its `message` returns, call by call: an item, the end
--     of the stream, or an error. A loop over a stream is a recursion over that list; where the list
--     is at its end the loop waits for the next message, and its run says what it has sent so far.
--     So these loops need no fuel. The loops that wait for a server to come up have fuel, one unit for
--     each attempt; any fuel above the number of attempts that fail is enough.
--   * The channel of ten places between a loop and its output stream is in Channel: sends, receives and
--     yields are steps of one system, in any order that the channel admits, from the first grant on.
--     Each `yield` is a step of its own, since the stream is suspended there.
--   * The event processor may lose the receiver of its reports, when the stream of requests is dropped:
--     the messages that it meets say whether the receiver is there (`item`) or lost (`unheard`). The
--     command worker and the query processor `unwrap` a send that fails, which is a panic; their runs
--     are those in which the receiver is there, and that panic is not modelled.
--   * ExampleEvent/Runs has the runs of an event processor that is stopped and started again, as steps
--     from world to world, and what others do between them; a run may be stopped between the handling
--     of an event and the storing of its token.
--   * HashMap is a list of entries, whose order is the order of iteration; no theorem relies on it.
--   * An i64 is an integer whose sums wrap around, as in a release build; bytes and lengths are natural
--     numbers.
--   * `format!("{:?}", text)`, whose escapes are tables of the standard library, is a parameter.
--
-- What is not modelled: the generated protocol code and the transport (the calls of the clients are
-- parameters), `tokio::spawn` and the gRPC server, which are parameters of `main` (what is spawned
-- are the runs of the three tasks), logging, the maps of meta data and the processing instructions,
-- which are always empty, and `box_clone`, since a value is its own clone. The hash of a greeting
-- and the encodings of messages are parameters, and the delay between two attempts is any change of
-- the world. The tasks that `main` spawns are modelled one by one; what they share is AxonServer
-- and Elastic Search, whose laws say what a task relies on.
--
-- Sample has an environment for the tests, which stand in the modules named Tests with an example for
-- each result.
pub mod Prelude
pub mod Io
pub mod HashMap
pub mod Messages
pub mod HandlerRegistry
pub mod Runtime
pub mod EventStore
pub mod Permits
pub mod Identifiers
pub mod Channel
pub mod CommandWorker
pub mod EventProcessor
pub mod QueryProcessor
pub mod ExampleCommand
pub mod CommandSubmit
pub mod QuerySubmit
pub mod ExampleApi
pub mod Json
pub mod ExampleEvent
pub mod ExampleQuery
pub mod Connection
pub mod Main
pub mod Sample
