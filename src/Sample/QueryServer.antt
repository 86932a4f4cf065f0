-- ===== src/Sample/QueryServer.antt =====
-- A server for the tests that hands each query to a query processor over a registry.
use rusty_dendrite.Prelude.{refl, Option, none, some, [], ◌∷◌}
use rusty_dendrite.Io.{Result, ok, err, panicked}
use rusty_dendrite.Runtime.{item, end_of_stream, Streaming}
use rusty_dendrite.HandlerRegistry.{TheHandlerRegistry}
use rusty_dendrite.QueryProcessor.{query, QueryResult, AxonQueryResult, handle_request}
use rusty_dendrite.QueryProcessor.Output.{QueryResponse}
use rusty_dendrite.QuerySubmit.{QueryServiceClient}
use rusty_dendrite.ExampleQuery.Served.{RoutesQueries}

abbrev response_with : AxonQueryResult → QueryResponse
response_with r = record {
  message_identifier = "response";
  error_code = "";
  error_message = none;
  payload = r.result;
  request_identifier = r.message_identifier;
}

abbrev responses :
    {S : Type 0} → Result (Option AxonQueryResult) × S → Result (Streaming QueryResponse) × S
responses (ok (some r), s) = (ok (item (response_with r) ∷ end_of_stream ∷ []), s)
responses (ok none, s) = (ok [], s)
responses (err e, s) = (err e, s)
responses (panicked, s) = (panicked, s)

module _ {S Q : Type 0} (query_context : Q) (registry : TheHandlerRegistry S Q QueryResult) where
  abbrev pub query_server : QueryServiceClient S
  query_server = record {
    query = λ q s. responses (handle_request query_context registry (some (query q)) s);
  }

  pub query_server-RoutesQueries : RoutesQueries query_context registry query_server
  query_server-RoutesQueries q r s s' e = (response_with r, rw e refl, refl)
