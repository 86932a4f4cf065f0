-- ===== src/QueryProcessor/Tests.antt =====
-- Tests of the query processor (src/axon_utils/query_processor.rs) in a sample world.
use mathlib.Core.List.{Nodup}
use rusty_dendrite.Identifiers.{ids_from}
use rusty_dendrite.QueryProcessor.Output.Identifiers.{identifiers, query_stream_identifiers}
use rusty_dendrite.Prelude.{
  ℕ, ◌++◌, arith, String, ◌+◌, ◌≤◌, ◌≡◌, refl, ◌⊎◌, none, some, List, [], ◌∷◌, length,
}
use rusty_dendrite.Prelude.Int.{pos, negsuc}
use rusty_dendrite.Io.{lift, attempt, ok, err, panicked, message}
use rusty_dendrite.HandlerRegistry
use rusty_dendrite.HandlerRegistry.{SubscriptionHandle, TheHandlerRegistry}
use rusty_dendrite.HashMap
use rusty_dendrite.Runtime.{item, failed, end_of_stream, Streaming}
use rusty_dendrite.QueryProcessor.{
  QueryRequest, QueryProviderInbound, query, QueryResult, AxonQueryResult, handle_request, opened,
  query_loop, and_then, handle_query, payload_of, query_processor,
}
use rusty_dendrite.QueryProcessor.Answers.{
  query_ids, first_failure, query_processor_ends, by_handler, query_failures_unreported,
}
use rusty_dendrite.Channel
use rusty_dendrite.Channel.{System, Reach, here, next, send, receive, start, capacity}
use rusty_dendrite.QueryProcessor.Output.{
  StreamState, QueryProviderOutbound, respond, opening, create_output_stream,
}
use rusty_dendrite.QueryProcessor.Output.Delivery.{tasks, completed, queries_delivered}
use rusty_dendrite.QueryProcessor.Output.Replies.{told, answers_to, granted}
use rusty_dendrite.QueryProcessor.Output.Outstanding.{Answers, Margin, queries_outstanding}
use rusty_dendrite.Sample.World.{World, sample_uuid, sample_uuid-IsInjective}

abbrev empty_world : World
empty_world = record { stored = []; drawn = 0; clock = 7; token = negsuc 0 }

-- A handler that finds its own payload, and one that fails.
abbrev finding : SubscriptionHandle World String QueryResult
finding = record {
  name = "Find";
  handle = λ buf query_context s. (
    ok (some (record { payload = some (record { type = "T"; revision = ""; bytes = buf }) })),
    s,
  );
}

abbrev failing : SubscriptionHandle World String QueryResult
failing = record { name = "Break"; handle = λ buf query_context s. (err (message "broken"), s) }

abbrev registry : TheHandlerRegistry World String QueryResult
registry = record { handlers = ("Find", finding) ∷ ("Break", failing) ∷ [] }

abbrev query_with : String → String → QueryRequest
query_with id name = record {
  message_identifier = id;
  query = name;
  timestamp = pos 0;
  payload = some (record { type = "Q"; revision = ""; bytes = 5 ∷ [] });
  response_type = none;
  client_id = "";
  component_name = "";
}

abbrev message_of : String → String → QueryProviderInbound
message_of id name = record { instruction_id = ""; request = some (query (query_with id name)) }

abbrev messages : Streaming QueryProviderInbound
messages =
    item (message_of "1" "Find")
    ∷ end_of_stream
    ∷ item (message_of "2" "Break")
    ∷ item (message_of "3" "Unknown")
    ∷ []

running : (query_processor "context" registry (lift (ok messages)) empty_world).returned ≡ none
unfolding query_processor opened query_loop and_then handle_request handle_query payload_of attempt
    HandlerRegistry.get HashMap.get
running = refl

query_processor_ends_example :
    let r =
      query_processor "context" registry (lift (ok (failed "broken" ∷ messages))) empty_world in
    (r.returned ≡ none)
    ⊎ (r.returned ≡ some panicked)
    ⊎ ((code : String) × (first_failure (failed "broken" ∷ messages) ≡ some code)
        × (r.returned ≡ some (err (message code))))
query_processor_ends_example =
    query_processor_ends "context" registry (lift (ok (failed "broken" ∷ messages)))
      (failed "broken" ∷ messages) empty_world empty_world refl

found-failing : HandlerRegistry.get registry "Break" ≡ some failing
unfolding HandlerRegistry.get HashMap.get
found-failing = refl

query_failures_unreported_example :
    (handle_request "context" registry (some (query (query_with "2" "Break"))) empty_world).0
    ≡ ok (some (record { message_identifier = "2"; result = none }))
query_failures_unreported_example =
    query_failures_unreported "context" registry (query_with "2" "Break") empty_world
      (by_handler failing _ (message "broken") empty_world found-failing refl refl)

abbrev first : AxonQueryResult
first = record {
  message_identifier = "1";
  result = some (record { type = "T"; revision = ""; bytes = 5 ∷ [] });
}

abbrev second : AxonQueryResult
second = record { message_identifier = "2"; result = none }

abbrev results : List AxonQueryResult
results = first ∷ second ∷ []

abbrev begun : List QueryProviderOutbound × StreamState
begun = opening sample_uuid "client" ("Find" ∷ "Break" ∷ [])

-- The first result is responded to but not yet completed, and the second one is in the channel.
abbrev halfway : System AxonQueryResult QueryProviderOutbound StreamState
halfway = record {
  pending = [];
  buffer = second ∷ [];
  variables = (respond sample_uuid "client" begun.1 first).1;
  yielded = begun.0 ++ Channel.first (respond sample_uuid "client" begun.1 first).0;
  outbox = Channel.left (respond sample_uuid "client" begun.1 first).0;
}

reached :
    Reach
      (respond sample_uuid "client")
      (start (respond sample_uuid "client") begun.1 results begun.0)
      halfway
reached =
    next
      (next (next here (send first (second ∷ []) [] begun.1 begun.0 [] (omega arith)))
        (receive first (second ∷ []) [] begun.1 begun.0))
      (send second [] [] _ _ _ (omega arith))

queries_outstanding_example :
    (length halfway.buffer ≤ capacity)
    × ((received : List AxonQueryResult) × (results
          ≡ received ++ (halfway.buffer ++ halfway.pending))
        × Answers (told halfway.yielded) (answers_to received)
        × Margin (length received) halfway.yielded halfway.outbox
        × (granted halfway.yielded ≤ length received + 6))
queries_outstanding_example =
    queries_outstanding sample_uuid "client" ("Find" ∷ "Break" ∷ []) results reached

abbrev sample_tasks : System AxonQueryResult QueryProviderOutbound StreamState
sample_tasks =
    tasks "context" registry (lift (ok messages)) messages empty_world empty_world refl sample_uuid
      "client" ("Find" ∷ "Break" ∷ [])

queries_delivered_example :
    (u : System AxonQueryResult QueryProviderOutbound StreamState) × Reach
      (respond sample_uuid "client")
      sample_tasks
      u
    × (completed (told u.yielded) ≡ query_ids messages)
    × (told u.yielded
        ≡ answers_to (query_processor "context" registry (lift (ok messages)) empty_world).sent)
queries_delivered_example =
    queries_delivered "context" registry (lift (ok messages)) messages empty_world empty_world refl
      sample_uuid "client" ("Find" ∷ "Break" ∷ []) running here

query_stream_identifiers_example :
    let out = create_output_stream sample_uuid "client" ("Find" ∷ "Break" ∷ []) results in
    Nodup (identifiers out) × ((k : ℕ) × (identifiers out ≡ ids_from sample_uuid 0 k))
query_stream_identifiers_example =
    query_stream_identifiers sample_uuid "client" ("Find" ∷ "Break" ∷ []) results
      sample_uuid-IsInjective
