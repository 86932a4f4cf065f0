-- ===== src/Main/Found.antt =====
-- The application as a whole, from the call of the API that sends a greeting to the one that searches
-- for it (src/example_api/mod.rs): over the greeter and the event store (src/example_command/mod.rs),
-- the index of greetings (src/example_event/mod.rs) and the query side (src/example_query/mod.rs).
mod Tests
use rusty_dendrite.Prelude.{
  String, ◌<>◌, ◌≤◌, ◌≡◌, sym, subst, ap, ◌∙◌, ◌⊎◌, inl, inr, Bool, true, false, some, List, [],
  ◌∷◌, ◌++◌, All, ◌==◌, length, if◌then◌else◌,
}
use rusty_dendrite.Prelude.Int.{ℤ, pos}
use rusty_dendrite.Io.{Io, ok}
use rusty_dendrite.Messages.{Codec}
use rusty_dendrite.Runtime.{Runtime}
use rusty_dendrite.EventStore.{Event, EventStoreClient}
use rusty_dendrite.EventStore.Laws.{IsEventStore}
use rusty_dendrite.EventProcessor.{Events, EventWithToken, initial_token}
use rusty_dendrite.CommandSubmit.{CommandServiceClient}
use rusty_dendrite.QuerySubmit.{QueryServiceClient}
use rusty_dendrite.ExampleCommand.{Greeting, Codecs}
use rusty_dendrite.ExampleCommand.Spec.{GreeterEvent, greeted, recording}
use rusty_dendrite.ExampleCommand.Carries.{Codes, AreCodecs, IsCodec, Represents}
use rusty_dendrite.ExampleApi.{SearchQuery, SearchResponse, response, greet, search}
use rusty_dendrite.ExampleApi.Routing.{Routes}
use rusty_dendrite.ExampleApi.Greetings.{greeted_in}
use rusty_dendrite.Json.{Value, Values, array, field, null}
use rusty_dendrite.ExampleEvent
use rusty_dendrite.ExampleEvent.{token_store, process_events}
use rusty_dendrite.ExampleEvent.Resumes.{KeepsDocuments}
use rusty_dendrite.ExampleEvent.QueryModel.{IsIn, NoCollision}
use rusty_dendrite.ExampleQuery.{Elasticsearch}
use rusty_dendrite.ExampleQuery.Search.{test_greeting}
use rusty_dendrite.ExampleQuery.Served.{RoutesQueries, search_registry}
use rusty_dendrite.ExampleQuery.Hits.{Searches, IsComplete, matching}
use rusty_dendrite.ExampleQuery.Found.{search_exact}
use rusty_dendrite.Main.Acknowledged.{
  streamed, Delivers-Represents, IsIn-last, acknowledged_Represents,
}

All-kept :
    (P : Greeting → Type 0) (b : Bool) (h : Greeting) (hs : List Greeting)
    → All P (if b then h ∷ hs else hs)
    → (b ≡ true → P h) × All P hs
All-kept P true h hs all = (λ e. all.0, all.1)
All-kept P false h hs all = (λ e. cc, all)

-- A greeting that matches is found where all that match are.
IsIn-matching :
    (matches : String → Bool) (hs gs : List Greeting) (g : Greeting)
    → All (λ h. IsIn h gs) (matching matches hs)
    → IsIn g hs
    → matches g.message ≡ true
    → IsIn g gs
IsIn-matching matches [] gs g all i m = absurd i
IsIn-matching matches (h ∷ hs) gs g all (inl same) m =
    let (kept, rest) = All-kept (λ k. IsIn k gs) (matches h.message) h (matching matches hs) all in
    subst (λ (t : String). IsIn (record { message = t }) gs) (sym same)
      (kept (ap matches (sym same) ∙ m))
IsIn-matching matches (h ∷ hs) gs g all (inr i) m =
    let (kept, rest) = All-kept (λ k. IsIn k gs) (matches h.message) h (matching matches hs) all in
    IsIn-matching matches hs gs g rest i m

module _ (debug : String → String) (codecs : Codecs) (valid : AreCodecs codecs) {S : Type 0}
    (rt : Runtime S) (store : EventStoreClient S) (log : S → String → List Event)
    (laws : IsEventStore rt store log) (client : CommandServiceClient S)
    (routes : Routes debug codecs rt store client) (hash : String → String)
    (indexer : ExampleEvent.Elasticsearch S) (document searchable : S → String → String → Value)
    (keeps : KeepsDocuments indexer document) (list_events : ℤ → Io S Events)
    (streams : (s : S) → list_events (pos 0) s ≡ (ok (streamed (pos 0) (log s "xxx")), s))
    (search_query : Codec SearchQuery) (search_response : Codec SearchResponse)
    (codes : IsCodec search_response) (query_client : QueryServiceClient S) (client_id : String)
    (searcher : Elasticsearch S) (matches : String → String → Bool)
    (searches : Searches searchable searcher matches)
    (query_routes : RoutesQueries searcher
      (search_registry search_query search_response)
      query_client) where
  -- Let the server keep its event store, hand a command to the greeter's worker and a query to the
  -- query processor, and stream the stored events of the greeter from the token 0 on; let the
  -- messages of the greeter and the responses encode and decode to themselves, and so the command
  -- and the query that are sent; and let Elastic Search keep its documents, and the hits of a
  -- complete answer be documents that a search sees, all that match unless there are ten. Let the
  -- store's events of the greeter stand for a history with the recorder on, and let a greeting
  -- other than `ERROR` be sent. Let the index of greetings be empty then, with no event processed,
  -- and let no two texts of the history that the greeting extends have the same hash. Then the
  -- greeting is acknowledged. And let a search for a query that the greeting matches be sent in
  -- some world after a run of the event processor, when what a search sees of the index has been
  -- refreshed, and let it get a complete answer with hits: it streams some greetings of that
  -- history and behind them the greeting `Test!`, and the greeting that was sent is one of them
  -- unless they are ten or more.
  pub acknowledged_greeting_found :
      (request : Greeting) (vs : List GreeterEvent) (s w' s'' : S) (asked : SearchQuery)
      (json_value : Value) (hits : Values)
      → Codes codecs.greet_command (record { aggregate_identifier = "xxx"; message = some request })
      → Represents codecs (log s "xxx") vs
      → recording true vs ≡ true
      → (request.message == "ERROR") ≡ false
      → NoCollision hash (greeted_in (vs ++ greeted (some request) ∷ []))
      → Codes search_query asked
      → matches asked.query request.message ≡ true
      → let x = greet debug codecs rt client request s in
        initial_token (token_store hash indexer) x.1 ≡ (ok (pos 0), x.1)
        → ((id : String) → document x.1 "greetings" id ≡ null)
        → let w = (process_events hash indexer codecs.greeted_event.decode list_events x.1).world in
          ((id : String) → searchable (rt.new_v4 w').1 "greetings" id ≡ document w "greetings" id)
          → searcher.search asked.query (rt.new_v4 w').1 ≡ (ok json_value, s'')
          → field (field json_value "hits") "hits" ≡ array hits
          → IsComplete json_value
          → (x.0 ≡ response (record { message = "ACK! " <> request.message }))
            × ((gs : List Greeting) × (search debug search_query search_response rt query_client
                    client_id asked w'
                  ≡ (response (gs ++ test_greeting ∷ []), s''))
                × All (λ g. IsIn g (greeted_in (vs ++ greeted (some request) ∷ []))) gs
                × ((10 ≤ length gs) ⊎ IsIn request gs))
  acknowledged_greeting_found request vs s w' s'' asked json_value hits coded history on fine apart
        coded' wanted token empty refreshed answered found complete =
      let (replied, stands) =
        acknowledged_Represents debug codecs valid rt store log laws client routes request vs s
          coded history on fine in
      let x = greet debug codecs rt client request s in
      let ws = vs ++ greeted (some request) ∷ [] in
      let (gs, streams_them, only, full) =
        search_exact debug hash codecs search_query search_response codes rt query_client client_id
          indexer searcher document searchable keeps matches searches query_routes list_events _ ws
          (pos 0) x.1 x.1 w' s'' asked json_value hits token (streams x.1)
          (Delivers-Represents codecs (pos 0) _ ws stands) empty apart coded' refreshed answered
          found complete in
      (
        replied,
        (
          gs,
          streams_them,
          only,
          elim full [
            | inl page ↦ inl page
            | inr all ↦ inr (
                IsIn-matching (matches asked.query) (greeted_in ws) gs request all
                  (IsIn-last request vs) wanted)
          ],
        ),
      )
