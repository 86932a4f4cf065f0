-- ===== src/ExampleQuery/Greeted.antt =====
-- What a search finds behind a run of the event processor: the event side of the example application
-- (src/example_event/mod.rs), its query side (src/example_query/mod.rs) and the call of the API
-- (src/example_api/mod.rs) over one Elastic Search.
use rusty_dendrite.Prelude.{
  String, ◌≡◌, refl, sym, subst, ap, ◌∙◌, ◌⊎◌, inl, inr, List, [], ◌∷◌, ◌++◌, All,
}
use rusty_dendrite.Prelude.Int.{ℤ}
use rusty_dendrite.Io.{Io, ok}
use rusty_dendrite.Messages.{Codec}
use rusty_dendrite.Runtime.{Runtime}
use rusty_dendrite.EventProcessor.{Events, initial_token}
use rusty_dendrite.QuerySubmit.{QueryServiceClient}
use rusty_dendrite.ExampleCommand.{Greeting, Codecs}
use rusty_dendrite.ExampleCommand.Spec.{GreeterEvent}
use rusty_dendrite.ExampleCommand.Carries.{Codes, IsCodec}
use rusty_dendrite.ExampleApi.{response, SearchQuery, SearchResponse, search}
use rusty_dendrite.ExampleApi.Greetings.{greeted_in}
use rusty_dendrite.ExampleEvent
use rusty_dendrite.ExampleEvent.{greeting_document, token_store, process_events}
use rusty_dendrite.ExampleEvent.Resumes.{KeepsDocuments}
use rusty_dendrite.ExampleEvent.Indexes.{Delivers}
use rusty_dendrite.ExampleEvent.QueryModel.{IsIn, NoCollision, query_model-Holds}
use rusty_dendrite.Json.{
  Value, null, boolean, number, text, array, object, Values, no_values, value_and, field,
}
use rusty_dendrite.ExampleQuery.{Elasticsearch}
use rusty_dendrite.ExampleQuery.Search.{Shows, no_hits, shown, skipped, test_greeting}
use rusty_dendrite.ExampleQuery.Served.{RoutesQueries, search_registry, search_finds}

abbrev pub IsText : Value → Type 0
IsText (text m) = Unit
IsText null = ⊥
IsText (boolean b) = ⊥
IsText (number n) = ⊥
IsText (array vs) = ⊥
IsText (object fields) = ⊥

abbrev pub text_in : Value → String
text_in (text m) = m
text_in null = ""
text_in (boolean b) = ""
text_in (number n) = ""
text_in (array vs) = ""
text_in (object fields) = ""

text-cases : (v : Value) → ((m : String) × (v ≡ text m)) ⊎ ((m : String) → ¬ (v ≡ text m))
text-cases (text m) = inl (m, refl)
text-cases null = inr (λ m e. subst IsText (sym e) tt)
text-cases (boolean b) = inr (λ m e. subst IsText (sym e) tt)
text-cases (number n) = inr (λ m e. subst IsText (sym e) tt)
text-cases (array vs) = inr (λ m e. subst IsText (sym e) tt)
text-cases (object fields) = inr (λ m e. subst IsText (sym e) tt)

-- Whatever the hits are, some greetings are among them.
Shows-total : (hits : Values) → (gs : List Greeting) × Shows hits gs
Shows-total no_values = ([], no_hits)
Shows-total (value_and document hits) =
    let (gs, shows) = Shows-total hits in
    elim (text-cases (field (field document "_source") "value")) [
      | inl (m, e) ↦ (record { message = m } ∷ gs, shown document m hits gs e shows)
      | inr other ↦ (gs, skipped document hits gs other shows)
    ]

module _ {S : Type 0} (hash : String → String) (document : S → String → String → Value) where
  -- Hits of a search of the greetings: the text that a hit has for its value is that of a document
  -- that is there.
  abbrev pub FromDocuments : S → Values → Type 0
  FromDocuments s no_values = Unit
  FromDocuments s (value_and hit hits) =
      ((m : String)
        → field (field hit "_source") "value" ≡ text m
        → (id : String) × (field (document s "greetings" id) "value" ≡ text m))
      × FromDocuments s hits

  abbrev pub From : S → List Greeting → Type 0
  From s gs =
      (id : String)
      → (document s "greetings" id ≡ null)
        ⊎ ((g : Greeting) × IsIn g gs
            × (document s "greetings" id ≡ greeting_document hash g.message))

  pub From-same :
      (s t : S) (gs : List Greeting)
      → ((id : String) → document t "greetings" id ≡ document s "greetings" id)
      → From s gs
      → From t gs
  From-same s t gs same from id =
      subst
        (λ x. (x ≡ null) ⊎ ((g : Greeting) × IsIn g gs × (x ≡ greeting_document hash g.message)))
        (sym (same id)) (from id)

  -- The text of a document of the index of greetings is that of a greeting.
  text-From :
      (s : S) (gs : List Greeting) (id m : String)
      → From s gs
      → field (document s "greetings" id) "value" ≡ text m
      → IsIn (record { message = m }) gs
  unfolding field greeting_document
  text-From s gs id m from e = elim (from id) [
    | inl missing ↦ absurd (subst IsText (sym (ap (λ v. field v "value") (sym missing) ∙ e)) tt)
    | inr (g, i, d) ↦
        let same : g.message ≡ m = ap text_in (ap (λ v. field v "value") (sym d) ∙ e) in
        subst (λ (t : String). IsIn (record { message = t }) gs) same i
  ]

  All-IsIn :
      (s : S) (gs : List Greeting) {hits : Values} {found : List Greeting}
      → From s gs
      → FromDocuments s hits
      → Shows hits found
      → All (λ g. IsIn g gs) found
  All-IsIn s gs from h no_hits = tt
  All-IsIn s gs from h (shown document' m hits found e shows) =
      let (id, kept) = h.0 m e in (text-From s gs id m from kept, All-IsIn s gs from h.1 shows)
  All-IsIn s gs from h (skipped document' hits found other shows) = All-IsIn s gs from h.1 shows

module _ (debug : String → String) (hash : String → String) (codecs : Codecs)
    (search_query : Codec SearchQuery) (search_response : Codec SearchResponse)
    (codes : IsCodec search_response) {S : Type 0} (rt : Runtime S) (client : QueryServiceClient S)
    (client_id : String) (indexer : ExampleEvent.Elasticsearch S) (searcher : Elasticsearch S)
    (document : S → String → String → Value) (keeps : KeepsDocuments indexer document)
    (draws : (s : S) (id : String)
      → document (rt.new_v4 s).1 "greetings" id ≡ document s "greetings" id)
    (routes : RoutesQueries searcher (search_registry search_query search_response) client) where
  -- Let the event processor run, over an Elastic Search that keeps its documents and has no greetings
  -- yet, on events of the greeter that stand for a history in which no two texts have the same hash.
  -- Let a search be sent in the world that the run leaves, and be answered by hits whose texts are
  -- those of documents that are there. Then it streams some greetings, each of which is in the
  -- history, and behind them the greeting `Test!`: what was not greeted is not found.
  pub search_only_greeted :
      (list_events : ℤ → Io S Events) (messages : Events) (vs : List GreeterEvent) (n : ℤ)
      (s s' s'' : S) (request : SearchQuery) (json_value : Value) (hits : Values)
      → initial_token (token_store hash indexer) s ≡ (ok n, s)
      → list_events n s ≡ (ok messages, s')
      → Delivers codecs messages vs
      → ((id : String) → document s' "greetings" id ≡ null)
      → NoCollision hash (greeted_in vs)
      → let w = (process_events hash indexer codecs.greeted_event.decode list_events s).world in
        Codes search_query request
        → searcher.search request.query (rt.new_v4 w).1 ≡ (ok json_value, s'')
        → field (field json_value "hits") "hits" ≡ array hits
        → FromDocuments hash document (rt.new_v4 w).1 hits
        → (gs : List Greeting) × (search debug search_query search_response rt client client_id
              request w
            ≡ (response (gs ++ test_greeting ∷ []), s''))
          × All (λ g. IsIn g (greeted_in vs)) gs
  search_only_greeted list_events messages vs n s s' s'' request json_value hits token opens d empty
        apart coded answered found from =
      let w = (process_events hash indexer codecs.greeted_event.decode list_events s).world in
      let (all, only) =
        query_model-Holds hash indexer document keeps codecs list_events messages vs n s s' token
          opens d empty apart in
      let (gs, shows) = Shows-total hits in
      (
        gs,
        search_finds debug search_query search_response rt client client_id searcher routes request
            json_value hits gs w s'' coded answered found shows
            (codes (record { greetings = gs ++ test_greeting ∷ [] })),
        All-IsIn hash document (rt.new_v4 w).1 (greeted_in vs)
            (From-same hash document w (rt.new_v4 w).1 (greeted_in vs) (draws w) only) from shows,
      )
