-- ===== src/ExampleQuery.antt =====
-- src/example_query/mod.rs: the query processor of the example application, which finds greetings in
-- Elastic Search.
pub mod Search
pub mod Served
pub mod Greeted
pub mod Hits
pub mod Found
mod Tests
use rusty_dendrite.Prelude.{String, Option, none, some, List, [], ◌∷◌, ◌++◌, map_option}
use rusty_dendrite.Io.{Result, ok, err, panicked, Io, pure, lift, with_context, ◌>>=◌}
use rusty_dendrite.Messages.{Bytes, Codec, axon_serialize}
use rusty_dendrite.Runtime.{Streaming}
use rusty_dendrite.HandlerRegistry
use rusty_dendrite.HandlerRegistry.{TheHandlerRegistry, empty_handler_registry}
use rusty_dendrite.QueryProcessor.{QueryProviderInbound, QueryResult, Run, query_processor}
use rusty_dendrite.ExampleCommand.{Greeting}
use rusty_dendrite.ExampleApi.{SearchQuery, SearchResponse}
use rusty_dendrite.Json.{
  Value, null, boolean, number, text, array, object, Values, no_values, value_and, field,
}

-- The call of the Elastic Search client that the program makes: to search the greetings for a query,
-- with the response as JSON.
pub record Elasticsearch (S : Type 0) : Type 0 where
  pub search : String → Io S Value

-- `if let Value::String(message) = … { greetings.push(…); }`
with_message : List Greeting → Value → List Greeting
with_message greetings (text message) = greetings ++ record { message = message } ∷ []
with_message greetings null = greetings
with_message greetings (boolean b) = greetings
with_message greetings (number n) = greetings
with_message greetings (array vs) = greetings
with_message greetings (object fields) = greetings

-- The loop over the hits.
greetings_of : List Greeting → Values → List Greeting
greetings_of greetings no_values = greetings
greetings_of greetings (value_and document hits) =
    greetings_of (with_message greetings (field (field document "_source") "value")) hits

hits_of : Value → List Greeting
hits_of (array hits) = greetings_of [] hits
hits_of null = []
hits_of (boolean b) = []
hits_of (number n) = []
hits_of (text t) = []
hits_of (object fields) = []

module _ (search_response : Codec SearchResponse) {S : Type 0} where
  unfoldable pub handle_search_query : SearchQuery → Elasticsearch S → Io S (Option QueryResult)
  unfolding hits_of greetings_of with_message
  handle_search_query search_query projection = do
    json_value ← projection.search search_query.query
    result ← lift (
        axon_serialize search_response "SearchResponse" (record {
          greetings =
              hits_of (field (field json_value "hits") "hits") ++ record { message = "Test!" } ∷ [];
        }))
    pure (some (record { payload = some result }))

  -- The registry after its one insertion, and the `?` behind it.
  unfoldable pub insertion :
      (Bytes → Result SearchQuery)
      → Io (TheHandlerRegistry S (Elasticsearch S) QueryResult) (Unit {0})
  insertion decode = HandlerRegistry.insert_with_output "SearchQuery" decode handle_search_query

  -- `internal_process_queries` once Elastic Search is there.
  unfoldable pub process_queries :
      (Bytes → Result SearchQuery)
      → Elasticsearch S
      → Io S (Streaming QueryProviderInbound)
      → S
      → Run S
  unfolding insertion
  process_queries decode es_client open_stream s =
      elim (insertion decode empty_handler_registry).0 [
        | ok _ ↦
            let run =
              query_processor es_client (insertion decode empty_handler_registry).1 open_stream s in
            record run {
              returned =
                  map_option (λ r. with_context r "Error while handling queries") run.returned;
            }
        | err e ↦ record { sent = []; returned = some (err e); world = s }
        | panicked ↦ record { sent = []; returned = some panicked; world = s }
      ]
