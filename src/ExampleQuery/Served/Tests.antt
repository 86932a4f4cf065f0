-- ===== src/ExampleQuery/Served/Tests.antt =====
-- Tests of a search through the server (src/example_query/mod.rs).
use rusty_dendrite.Prelude.{String, ◌≡◌, refl, [], ◌∷◌, ◌++◌}
use rusty_dendrite.Io.{err, message}
use rusty_dendrite.ExampleCommand.{Greeting}
use rusty_dendrite.ExampleApi.{response, search}
use rusty_dendrite.Json.{field}
use rusty_dendrite.ExampleEvent.{greeting_document}
use rusty_dendrite.ExampleQuery.{Elasticsearch}
use rusty_dendrite.ExampleQuery.Search.{Shows, no_hits, shown, test_greeting}
use rusty_dendrite.ExampleQuery.Served.{search_registry, search_finds, search_failure_hidden}
use rusty_dendrite.Sample.Documents.{
  Documents, sample_hash, hits, found, found-hits, searcher, documents_runtime,
}
use rusty_dendrite.Sample.QueryServer.{query_server, query_server-RoutesQueries}
use rusty_dendrite.Sample.Searches.{
  sample_search_query, sample_search_query-IsCodec, sample_search_response,
  sample_search_response-IsCodec,
}

abbrev debug : String → String
debug s = s

-- One document, that of the greeting `Hello`.
abbrev greeted : Documents
greeted =
    record { index = "greetings"; id = "Hello"; value = greeting_document sample_hash "Hello" } ∷ []

abbrev hello : Greeting
hello = record { message = "Hello" }

hits-Shows : Shows (hits "Hello" greeted) (hello ∷ [])
unfolding field greeting_document
hits-Shows = shown _ "Hello" _ [] refl no_hits

search_finds_example :
    search debug sample_search_query sample_search_response documents_runtime
      (query_server searcher (search_registry sample_search_query sample_search_response))
      "client"
      (record { query = "Hello" })
      greeted
    ≡ (response ((hello ∷ []) ++ test_greeting ∷ []), greeted)
search_finds_example =
    search_finds debug sample_search_query sample_search_response documents_runtime
      (query_server searcher (search_registry sample_search_query sample_search_response)) "client"
      searcher (query_server-RoutesQueries searcher _) (record { query = "Hello" })
      (found "Hello" greeted) (hits "Hello" greeted) (hello ∷ []) greeted greeted
      (sample_search_query-IsCodec (record { query = "Hello" })) refl (found-hits "Hello" greeted)
      hits-Shows (sample_search_response-IsCodec _)

abbrev broken : Elasticsearch Documents
broken = record { search = λ query s. (err (message "unavailable"), s) }

search_failure_hidden_example :
    search debug sample_search_query sample_search_response documents_runtime
      (query_server broken (search_registry sample_search_query sample_search_response))
      "client"
      (record { query = "Hello" })
      greeted
    ≡ (response [], greeted)
search_failure_hidden_example =
    search_failure_hidden debug sample_search_query sample_search_response documents_runtime
      (query_server broken (search_registry sample_search_query sample_search_response)) "client"
      broken (query_server-RoutesQueries broken _) (record { query = "Hello" })
      (message "unavailable") greeted greeted
      (sample_search_query-IsCodec (record { query = "Hello" })) refl
