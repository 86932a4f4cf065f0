-- ===== src/ExampleQuery/Search.antt =====
-- What a search finds (src/example_query/mod.rs).
use rusty_dendrite.Prelude.{
  String, ◌≡◌, refl, sym, ap, ◌∙◌, some, List, [], ◌∷◌, ◌++◌, append-nil, append_assoc,
}
use rusty_dendrite.Io.{ok}
use rusty_dendrite.Messages.{SerializedObject, Codec, axon_serialize}
use rusty_dendrite.ExampleCommand.{Greeting}
use rusty_dendrite.ExampleCommand.Carries.{Codes}
use rusty_dendrite.ExampleApi.{SearchQuery, SearchResponse}
use rusty_dendrite.Json.{
  Value, null, boolean, number, text, array, object, Values, no_values, value_and, field,
}
use rusty_dendrite.ExampleQuery.{
  Elasticsearch, with_message, greetings_of, hits_of, handle_search_query,
}

-- The greetings among the hits: those whose document has a text for its value.
pub data Shows : Values → List Greeting → Type 0 where
  no_hits : Shows no_values []
  shown :
      (document : Value) (m : String) (hits : Values) (gs : List Greeting)
      → field (field document "_source") "value" ≡ text m
      → Shows hits gs
      → Shows (value_and document hits) (record { message = m } ∷ gs)
  skipped :
      (document : Value) (hits : Values) (gs : List Greeting)
      → ((m : String) → ¬ (field (field document "_source") "value" ≡ text m))
      → Shows hits gs
      → Shows (value_and document hits) gs

with_message-other :
    (greetings : List Greeting) (v : Value)
    → ((m : String) → ¬ (v ≡ text m))
    → with_message greetings v ≡ greetings
unfolding with_message
with_message-other greetings null h = refl
with_message-other greetings (boolean b) h = refl
with_message-other greetings (number n) h = refl
with_message-other greetings (text m) h = absurd (h m refl)
with_message-other greetings (array vs) h = refl
with_message-other greetings (object fields) h = refl

with_message-text :
    (greetings : List Greeting) (v : Value) (m : String)
    → v ≡ text m
    → with_message greetings v ≡ greetings ++ record { message = m } ∷ []
unfolding with_message
with_message-text greetings v m e = rw e refl

greetings_of-Shows :
    (acc : List Greeting) {hits : Values} {gs : List Greeting}
    → Shows hits gs
    → greetings_of acc hits ≡ acc ++ gs
unfolding greetings_of
greetings_of-Shows acc no_hits = sym (append-nil acc)
greetings_of-Shows acc (shown document m hits gs e h) =
    ap (λ l. greetings_of l hits) (with_message-text acc _ m e)
    ∙ greetings_of-Shows (acc ++ record { message = m } ∷ []) h
    ∙ append_assoc acc (record { message = m } ∷ []) gs
greetings_of-Shows acc (skipped document hits gs n h) =
    ap (λ l. greetings_of l hits) (with_message-other acc _ n) ∙ greetings_of-Shows acc h

abbrev pub test_greeting : Greeting
test_greeting = record { message = "Test!" }

module _ (search_response : Codec SearchResponse) {S : Type 0} (es_client : Elasticsearch S) where
  -- A search is answered by a payload that decodes to the greetings among the hits, in their order and
  -- without the hits that have no text for a value, and the greeting `Test!` behind them.
  pub search_query_finds :
      (search_query : SearchQuery) (json_value : Value) (hits : Values) (gs : List Greeting)
      (s s' : S)
      → es_client.search search_query.query s ≡ (ok json_value, s')
      → field (field json_value "hits") "hits" ≡ array hits
      → Shows hits gs
      → Codes search_response (record { greetings = gs ++ test_greeting ∷ [] })
      → (payload : SerializedObject) × (handle_search_query search_response search_query es_client s
          ≡ (ok (some (record { payload = some payload })), s'))
        × (payload.type ≡ "SearchResponse")
        × (search_response.decode payload.bytes
            ≡ ok (record { greetings = gs ++ test_greeting ∷ [] }))
  unfolding handle_search_query hits_of axon_serialize
  search_query_finds search_query json_value hits gs s s' answered found shows
        (buf, encoded, decoded) =
      (
        record { type = "SearchResponse"; revision = ""; bytes = buf },
        rw (answered, found, greetings_of-Shows [] shows, encoded) refl,
        refl,
        decoded,
      )
