-- ===== src/ExampleQuery/Found/Tests.antt =====
-- A test of what a search finds behind a run of the event processor (src/example_query/mod.rs).
use rusty_dendrite.Prelude.{String, ◌≡◌, ◌≤◌, ◌⊎◌, refl, List, [], ◌∷◌, ◌++◌, All, length}
use rusty_dendrite.Prelude.Int.{pos}
use rusty_dendrite.ExampleCommand.{Greeting}
use rusty_dendrite.ExampleApi.{response, search}
use rusty_dendrite.ExampleApi.Greetings.{greeted_in}
use rusty_dendrite.ExampleEvent.{process_events}
use rusty_dendrite.ExampleEvent.QueryModel.{IsIn}
use rusty_dendrite.ExampleQuery.Search.{test_greeting}
use rusty_dendrite.ExampleQuery.Served.{search_registry}
use rusty_dendrite.ExampleQuery.Hits.{matching}
use rusty_dendrite.ExampleQuery.Found.{search_exact}
use rusty_dendrite.Sample.Encodings.{sample_codecs}
use rusty_dendrite.Sample.Documents.{
  Documents, document, no_documents, sample_hash, indexer, indexer-KeepsDocuments, searcher, found,
  found-hits, found-IsComplete, hits, sample_matches, searcher-Searches, documents_runtime,
}
use rusty_dendrite.Sample.QueryServer.{query_server, query_server-RoutesQueries}
use rusty_dendrite.Sample.Searches.{
  sample_search_query, sample_search_query-IsCodec, sample_search_response,
  sample_search_response-IsCodec,
}
use rusty_dendrite.Sample.Streams.{
  sample_history, sample_messages, sample_messages-Delivers, sample_list_events,
  no_documents-initial_token,
}

abbrev debug : String → String
debug s = s

-- The world that the run leaves.
abbrev left : Documents
left =
    (process_events sample_hash indexer sample_codecs.greeted_event.decode sample_list_events
      no_documents).world

search_exact_example :
    (gs : List Greeting) × (search debug sample_search_query sample_search_response
        documents_runtime
        (query_server searcher (search_registry sample_search_query sample_search_response))
        "client"
        (record { query = "Hi" })
        left
      ≡ (response (gs ++ test_greeting ∷ []), left))
    × All (λ g. IsIn g (greeted_in sample_history)) gs
    × ((10 ≤ length gs)
        ⊎ All (λ g. IsIn g gs) (matching (sample_matches "Hi") (greeted_in sample_history)))
search_exact_example =
    search_exact debug sample_hash sample_codecs sample_search_query sample_search_response
      sample_search_response-IsCodec documents_runtime
      (query_server searcher (search_registry sample_search_query sample_search_response)) "client"
      indexer searcher document document indexer-KeepsDocuments sample_matches searcher-Searches
      (query_server-RoutesQueries searcher _) sample_list_events sample_messages sample_history
      (pos 0) no_documents no_documents left left (record { query = "Hi" }) (found "Hi" left)
      (hits "Hi" left) no_documents-initial_token refl sample_messages-Delivers (λ id. refl)
      (λ a b i j e. e) (sample_search_query-IsCodec (record { query = "Hi" })) (λ id. refl) refl
      (found-hits "Hi" left) (found-IsComplete "Hi" left)
