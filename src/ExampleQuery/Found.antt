-- ===== src/ExampleQuery/Found.antt =====
-- Which greetings a search finds and which it does not miss, behind a run of the event processor
-- (src/example_query/mod.rs, src/example_event/mod.rs and `search` of src/example_api/mod.rs).
mod Tests
use rusty_dendrite.Prelude.{
  ◌≤◌, String, ◌≡◌, ◌⊎◌, inl, inr, Bool, List, [], ◌∷◌, ◌++◌, All, arith, length,
}
use rusty_dendrite.Prelude.Int.{ℤ}
use rusty_dendrite.Io.{Io, ok}
use rusty_dendrite.Messages.{Codec}
use rusty_dendrite.Runtime.{Runtime}
use rusty_dendrite.EventProcessor.{Events, EventWithToken, initial_token}
use rusty_dendrite.QuerySubmit.{QueryServiceClient}
use rusty_dendrite.ExampleCommand.{Greeting, Codecs}
use rusty_dendrite.ExampleCommand.Spec.{GreeterEvent}
use rusty_dendrite.ExampleCommand.Carries.{Codes, IsCodec}
use rusty_dendrite.ExampleApi.{response, SearchQuery, SearchResponse, search}
use rusty_dendrite.ExampleApi.Greetings.{greeted_in}
use rusty_dendrite.ExampleEvent
use rusty_dendrite.ExampleEvent.{greeting_document, token_store, process_events}
use rusty_dendrite.ExampleEvent.Resumes.{KeepsDocuments}
use rusty_dendrite.ExampleEvent.Indexes.{Delivers}
use rusty_dendrite.ExampleEvent.QueryModel.{IsIn, NoCollision, query_model-Holds}
use rusty_dendrite.Json.{Value, Values, array, field, null}
use rusty_dendrite.ExampleQuery.{Elasticsearch}
use rusty_dendrite.ExampleQuery.Search.{test_greeting}
use rusty_dendrite.ExampleQuery.Served.{RoutesQueries, search_registry, search_finds}
use rusty_dendrite.ExampleQuery.Hits.{
  Searches, matching, AreDocuments-Shows, Covers-matching, All-refreshed, From-refreshed,
  IsComplete,
}

module _ (debug : String → String) (hash : String → String) (codecs : Codecs)
    (search_query : Codec SearchQuery) (search_response : Codec SearchResponse)
    (codes : IsCodec search_response) {S : Type 0} (rt : Runtime S) (client : QueryServiceClient S)
    (client_id : String) (indexer : ExampleEvent.Elasticsearch S) (searcher : Elasticsearch S)
    (document searchable : S → String → String → Value) (keeps : KeepsDocuments indexer document)
    (matches : String → String → Bool) (searches : Searches searchable searcher matches)
    (routes : RoutesQueries searcher (search_registry search_query search_response) client) where
  -- Let the event processor run, over an Elastic Search that keeps its documents and has no greetings
  -- yet, on events of the greeter that stand for a history in which no two texts have the same hash;
  -- and let a search be sent in some world after the run. Let what a search sees of the index have
  -- been refreshed by then, and Elastic Search answer this one completely with hits, which are
  -- documents that it sees, and all that match unless there are ten. Then the search streams some
  -- greetings, each of which is in the history, and behind them the greeting `Test!`; and unless they
  -- are ten or more, each greeting of the history that matches the query is among them.
  pub search_exact :
      (list_events : ℤ → Io S Events) (messages : Events) (vs : List GreeterEvent) (n : ℤ)
      (s s' w' s'' : S) (request : SearchQuery) (json_value : Value) (hits : Values)
      → initial_token (token_store hash indexer) s ≡ (ok n, s)
      → list_events n s ≡ (ok messages, s')
      → Delivers codecs messages vs
      → ((id : String) → document s' "greetings" id ≡ null)
      → NoCollision hash (greeted_in vs)
      → Codes search_query request
      → let w = (process_events hash indexer codecs.greeted_event.decode list_events s).world in
        ((id : String) → searchable (rt.new_v4 w').1 "greetings" id ≡ document w "greetings" id)
        → searcher.search request.query (rt.new_v4 w').1 ≡ (ok json_value, s'')
        → field (field json_value "hits") "hits" ≡ array hits
        → IsComplete json_value
        → (gs : List Greeting) × (search debug search_query search_response rt client client_id
              request w'
            ≡ (response (gs ++ test_greeting ∷ []), s''))
          × All (λ g. IsIn g (greeted_in vs)) gs
          × ((10 ≤ length gs)
              ⊎ All (λ g. IsIn g gs) (matching (matches request.query) (greeted_in vs)))
  search_exact list_events messages vs n s s' w' s'' request json_value hits token opens d empty
        apart coded refreshed answered found complete =
      let w = (process_events hash indexer codecs.greeted_event.decode list_events s).world in
      let s₁ = (rt.new_v4 w').1 in
      let (all, only) =
        query_model-Holds hash indexer document keeps codecs list_events messages vs n s s' token
          opens d empty apart in
      let (are, full) =
        searches.pages request.query s₁ s'' json_value hits answered found complete in
      let from = From-refreshed hash document searchable w s₁ refreshed (greeted_in vs) only in
      let (gs, shows, greeted, many) =
        AreDocuments-Shows hash searchable s₁ (greeted_in vs) from hits are in
      (
        gs,
        search_finds debug search_query search_response rt client client_id searcher routes request
            json_value hits gs w' s'' coded answered found shows
            (codes (record { greetings = gs ++ test_greeting ∷ [] })),
        greeted,
        elim full [
          | inl page ↦ inl (omega (arith, page, many))
          | inr covers ↦ inr (
              Covers-matching hash searchable s₁ (greeted_in vs) from (matches request.query) hits
                gs (greeted_in vs) shows covers
                (All-refreshed hash document searchable w s₁ refreshed (greeted_in vs) all))
        ],
      )
