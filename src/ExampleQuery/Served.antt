-- ===== src/ExampleQuery/Served.antt =====
-- A search from the API (`search` of src/example_api/mod.rs) through AxonServer to the query processor
-- of the example application and back (src/example_query/mod.rs).
mod Tests
use rusty_dendrite.Prelude.{
  String, ◌≡◌, refl, sym, subst, none, some, List, [], ◌∷◌, ◌++◌, append-nil,
}
use rusty_dendrite.Io.{ok, err, Error}
use rusty_dendrite.Messages.{Bytes, SerializedObject, Codec}
use rusty_dendrite.Runtime.{Runtime, item, end_of_stream}
use rusty_dendrite.HashMap
use rusty_dendrite.HandlerRegistry
use rusty_dendrite.HandlerRegistry.{TheHandlerRegistry, SubscriptionHandle, empty_handler_registry}
use rusty_dendrite.QueryProcessor.{
  QueryRequest, query, QueryResult, AxonQueryResult, handle_request,
}
use rusty_dendrite.QueryProcessor.Requests.{handle_request-some, handle_request-err}
use rusty_dendrite.QueryProcessor.Output.{QueryResponse}
use rusty_dendrite.QuerySubmit.{QueryServiceClient, request_of}
use rusty_dendrite.ExampleCommand.{Greeting}
use rusty_dendrite.ExampleCommand.Carries.{Codes}
use rusty_dendrite.ExampleApi.{response, SearchQuery, SearchResponse, search}
use rusty_dendrite.ExampleApi.Greetings.{search_served}
use rusty_dendrite.Json.{Value, array, Values, field}
use rusty_dendrite.ExampleQuery.{Elasticsearch, handle_search_query, insertion}
use rusty_dendrite.ExampleQuery.Search.{Shows, test_greeting, search_query_finds}

module _ {S Q : Type 0} (query_context : Q)
    (query_handler_registry : TheHandlerRegistry S Q QueryResult) where
  -- What the API relies on of AxonServer: a query that it is sent is handled by the query processor,
  -- and the stream of responses has the result of the processor and then ends.
  abbrev pub RoutesQueries : QueryServiceClient S → Type 0
  RoutesQueries client =
      (q : QueryRequest) (r : AxonQueryResult) (s s' : S)
      → handle_request query_context query_handler_registry (some (query q)) s ≡ (ok (some r), s')
      → (out : QueryResponse) × (client.query q s ≡ (ok (item out ∷ end_of_stream ∷ []), s'))
        × (out.payload ≡ r.result)

-- The registry of `internal_process_queries`.
abbrev pub search_registry :
    Codec SearchQuery
    → Codec SearchResponse
    → {S : Type 0} → TheHandlerRegistry S (Elasticsearch S) QueryResult
search_registry search_query search_response =
    (insertion search_response search_query.decode empty_handler_registry).1

module _ (debug : String → String) (search_query : Codec SearchQuery)
    (search_response : Codec SearchResponse) {S : Type 0} (rt : Runtime S)
    (client : QueryServiceClient S) (client_id : String) (es_client : Elasticsearch S) where
  -- The query that a search sends.
  abbrev pub asked : Bytes → S → QueryRequest
  asked buf s =
      request_of client_id (rt.new_v4 s).0
        (record { type = "SearchQuery"; revision = "1"; bytes = buf })

  registered_some :
      (buf : Bytes) (request : SearchQuery) (r : QueryResult) (s s' : S)
      → search_query.decode buf ≡ ok request
      → handle_search_query search_response request es_client s ≡ (ok (some r), s')
      → (h : SubscriptionHandle S (Elasticsearch S) QueryResult) × (HandlerRegistry.get
            (search_registry search_query search_response)
            "SearchQuery"
          ≡ some h)
        × (h.handle buf es_client s ≡ (ok (some r), s'))
  unfolding insertion HandlerRegistry.get HandlerRegistry.insert_with_output empty_handler_registry
      HashMap.get HashMap.insert HashMap.contains_key
  registered_some buf request r s s' decoded handled = (_, refl, rw (decoded, handled) refl)

  registered_err :
      (buf : Bytes) (request : SearchQuery) (e : Error) (s s' : S)
      → search_query.decode buf ≡ ok request
      → handle_search_query search_response request es_client s ≡ (err e, s')
      → (h : SubscriptionHandle S (Elasticsearch S) QueryResult) × (HandlerRegistry.get
            (search_registry search_query search_response)
            "SearchQuery"
          ≡ some h)
        × (h.handle buf es_client s ≡ (err e, s'))
  unfolding insertion HandlerRegistry.get HandlerRegistry.insert_with_output empty_handler_registry
      HashMap.get HashMap.insert HashMap.contains_key
  registered_err buf request e s s' decoded handled = (_, refl, rw (decoded, handled) refl)

  module _
      (routes : RoutesQueries es_client (search_registry search_query search_response) client) where
    -- Let the server hand a query to the query processor of the example application, and let the
    -- messages of a search encode and decode to themselves. Then a search is answered by the greetings
    -- among the hits that Elastic Search finds for its text, in their order and without the hits that
    -- have no text for a value, and by the greeting `Test!` behind them.
    pub search_finds :
        (request : SearchQuery) (json_value : Value) (hits : Values) (gs : List Greeting) (s s' : S)
        → Codes search_query request
        → es_client.search request.query (rt.new_v4 s).1 ≡ (ok json_value, s')
        → field (field json_value "hits") "hits" ≡ array hits
        → Shows hits gs
        → Codes search_response (record { greetings = gs ++ test_greeting ∷ [] })
        → search debug search_query search_response rt client client_id request s
          ≡ (response (gs ++ test_greeting ∷ []), s')
    unfolding request_of
    search_finds request json_value hits gs s s' (buf, encoded, decoded) answered found shows
          codes =
        let s₁ = (rt.new_v4 s).1 in
        let (payload, handled, named, meant) =
          search_query_finds search_response es_client request json_value hits gs s₁ s' answered
            found shows codes in
        let (h, bound, ran) = registered_some buf request _ s₁ s' decoded handled in
        let (out, sent, carried) = routes (asked buf s) _ s₁ s' (
          handle_request-some es_client (search_registry search_query search_response) (asked buf s)
            h _ s₁ s' bound refl payload ran) in
        subst
          (λ l.
            search debug search_query search_response rt client client_id request s
            ≡ (response l, s'))
          (append-nil (gs ++ test_greeting ∷ []))
          (search_served debug search_query search_response rt client client_id request buf
            (item out ∷ []) (payload ∷ []) (record { greetings = gs ++ test_greeting ∷ [] } ∷ [])
            end_of_stream [] s s' encoded sent (carried, tt) tt (meant, tt))

    -- Under the same conditions a search for which Elastic Search fails is answered by no greeting at
    -- all, and not by an error: the caller cannot tell it from an answer with no greetings.
    pub search_failure_hidden :
        (request : SearchQuery) (e : Error) (s s' : S)
        → Codes search_query request
        → es_client.search request.query (rt.new_v4 s).1 ≡ (err e, s')
        → search debug search_query search_response rt client client_id request s
          ≡ (response [], s')
    unfolding request_of handle_search_query
    search_failure_hidden request e s s' (buf, encoded, decoded) fails =
        let s₁ = (rt.new_v4 s).1 in
        let (h, bound, ran) = registered_err buf request e s₁ s' decoded (rw fails refl) in
        let (out, sent, carried) = routes (asked buf s) _ s₁ s' (
          handle_request-err es_client (search_registry search_query search_response) (asked buf s)
            h _ s₁ s' bound refl e ran) in
        search_served debug search_query search_response rt client client_id request buf [] [] []
          (item out) (end_of_stream ∷ []) s s' encoded sent tt carried tt
