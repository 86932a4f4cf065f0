-- ===== src/ExampleApi/Greetings.antt =====
-- What the calls of the greeter's service stream that read (src/example_api/mod.rs).
use rusty_dendrite.Prelude.{String, ◌≡◌, refl, ap, ◌∙◌, none, some, List, [], ◌∷◌, ◌++◌}
use rusty_dendrite.Io.{ok}
use rusty_dendrite.Messages.{Bytes, SerializedObject, Codec}
use rusty_dendrite.Runtime.{Runtime, Streaming, Received}
use rusty_dendrite.EventStore.{Event, EventStoreClient}
use rusty_dendrite.EventStore.Laws.{IsEventStore}
use rusty_dendrite.EventStore.Query.{query_events-end_of_stream}
use rusty_dendrite.QueryProcessor.Output.{QueryResponse}
use rusty_dendrite.QuerySubmit.{QueryServiceClient, request_of, send_query}
use rusty_dendrite.QuerySubmit.Collects.{CarryAll, Ends, submit_query_collects}
use rusty_dendrite.ExampleCommand.{Greeting, Codecs}
use rusty_dendrite.ExampleCommand.Spec.{GreeterEvent, greeted, started, stopped}
use rusty_dendrite.ExampleCommand.Carries.{Represents, Carries}
use rusty_dendrite.ExampleApi.{
  response, SearchQuery, SearchResponse, found_all, found_in, search, served, greeting_in,
  sent_before, greetings_in, greetings, ok_of,
}

-- The greetings of a history, in its order.
abbrev pub greeted_in : List GreeterEvent → List Greeting
greeted_in [] = []
greeted_in (greeted none ∷ vs) = greeted_in vs
greeted_in (greeted (some greeting) ∷ vs) = greeting ∷ greeted_in vs
greeted_in (started ∷ vs) = greeted_in vs
greeted_in (stopped ∷ vs) = greeted_in vs

abbrev pub last_greeting : Greeting
last_greeting = record { message = "End of stream -oo-" }

module _ (debug : String → String) (codecs : Codecs) {S : Type 0}
    (client : EventStoreClient S) where
  greetings_in-Carries :
      (e : Event) (v : GreeterEvent) (rest : List Greeting)
      → Carries codecs e v
      → sent_before debug codecs client (greeting_in debug codecs client e.payload) rest
        ≡ greeted_in (v ∷ []) ++ rest
  unfolding sent_before greeting_in ok_of
  greetings_in-Carries e (greeted none) rest (buf, carried, decoded) = rw (carried, decoded) refl
  greetings_in-Carries e (greeted (some g)) rest (buf, carried, decoded) =
      rw (carried, decoded) refl
  greetings_in-Carries e started rest (buf, carried, decoded) = rw carried refl
  greetings_in-Carries e stopped rest (buf, carried, decoded) = rw carried refl

  greeted_in-cons :
      (v : GreeterEvent) (vs : List GreeterEvent) (rest : List Greeting)
      → greeted_in (v ∷ []) ++ (greeted_in vs ++ rest) ≡ greeted_in (v ∷ vs) ++ rest
  greeted_in-cons (greeted none) vs rest = refl
  greeted_in-cons (greeted (some g)) vs rest = refl
  greeted_in-cons started vs rest = refl
  greeted_in-cons stopped vs rest = refl

  greetings_in-Represents :
      (es : List Event) (vs : List GreeterEvent)
      → Represents codecs es vs
      → greetings_in debug codecs client es ≡ greeted_in vs ++ last_greeting ∷ []
  unfolding greetings_in
  greetings_in-Represents [] [] h = refl
  greetings_in-Represents [] (v ∷ vs) h = absurd h
  greetings_in-Represents (e ∷ es) [] h = absurd h
  greetings_in-Represents (e ∷ es) (v ∷ vs) (h, rest) =
      greetings_in-Carries e v _ h
      ∙ ap (λ l. greeted_in (v ∷ []) ++ l) (greetings_in-Represents es vs rest)
      ∙ greeted_in-cons v vs _

  -- From a server that keeps its event store and whose events of the greeter stand for a history,
  -- `greetings` streams the greetings of that history in their order and then the end mark; it
  -- changes nothing.
  pub greetings_served :
      (rt : Runtime S) (log : S → String → List Event) (laws : IsEventStore rt client log)
      (vs : List GreeterEvent) (s : S)
      → Represents codecs (log s "xxx") vs
      → greetings debug codecs client s ≡ (response (greeted_in vs ++ last_greeting ∷ []), s)
  unfolding greetings served
  greetings_served rt log laws vs s h =
      rw
        (
          query_events-end_of_stream client "xxx" s s (log s "xxx") [] (laws.lists "xxx" s),
          greetings_in-Represents (log s "xxx") vs h,
        )
        refl

module _ (debug : String → String) (search_query : Codec SearchQuery)
    (search_response : Codec SearchResponse) {S : Type 0} (rt : Runtime S)
    (client : QueryServiceClient S) (client_id : String) where
  -- Payloads that decode to some responses.
  abbrev pub DecodeTo : List SerializedObject → List SearchResponse → Type 0
  DecodeTo [] [] = Unit
  DecodeTo [] (found ∷ rest) = ⊥
  DecodeTo (payload ∷ payloads) [] = ⊥
  DecodeTo (payload ∷ payloads) (found ∷ rest) =
      (search_response.decode payload.bytes ≡ ok found) × DecodeTo payloads rest

  abbrev pub all_greetings : List SearchResponse → List Greeting
  all_greetings [] = []
  all_greetings (found ∷ rest) = found.greetings ++ all_greetings rest

  found_all-DecodeTo :
      (payloads : List SerializedObject) (found : List SearchResponse)
      → DecodeTo payloads found
      → found_all debug search_query search_response rt client client_id payloads
        ≡ all_greetings found
  unfolding found_all found_in
  found_all-DecodeTo [] [] h = refl
  found_all-DecodeTo [] (f ∷ found) h = absurd h
  found_all-DecodeTo (payload ∷ payloads) [] h = absurd h
  found_all-DecodeTo (payload ∷ payloads) (f ∷ found) h =
      rw h.0 (ap (λ l. f.greetings ++ l) (found_all-DecodeTo payloads found h.1))

  -- A search streams the greetings of all responses in their order, where the server answers the query
  -- by responses whose payloads decode, up to the end of its stream or to a response with no payload.
  pub search_served :
      (request : SearchQuery) (buf : Bytes) (stream : Streaming QueryResponse)
      (payloads : List SerializedObject) (found : List SearchResponse)
      (last : Received QueryResponse) (rest : Streaming QueryResponse) (s s' : S)
      → search_query.encode request ≡ ok buf
      → client.query
          (request_of client_id
            (rt.new_v4 s).0
            (record { type = "SearchQuery"; revision = "1"; bytes = buf }))
          (rt.new_v4 s).1
        ≡ (ok (stream ++ last ∷ rest), s')
      → CarryAll stream payloads
      → Ends last
      → DecodeTo payloads found
      → search debug search_query search_response rt client client_id request s
        ≡ (response (all_greetings found), s')
  unfolding search served send_query
  search_served request buf stream payloads found last rest s s' encoded answered carried ends
        decoded =
      rw
        (
          encoded,
          submit_query_collects rt client client_id
              (record { type = "SearchQuery"; revision = "1"; bytes = buf }) stream payloads last
              rest s s' answered carried ends,
          found_all-DecodeTo payloads found decoded,
        )
        refl
