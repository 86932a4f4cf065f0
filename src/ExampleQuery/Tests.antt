-- ===== src/ExampleQuery/Tests.antt =====
-- Tests of the search of the example application (src/example_query/mod.rs).
use rusty_dendrite.Prelude.{String, ◌≡◌, refl, sym, subst, none, some, [], ◌∷◌}
use rusty_dendrite.Io.{ok}
use rusty_dendrite.Messages.{SerializedObject, Codec}
use rusty_dendrite.ExampleApi.{SearchResponse}
use rusty_dendrite.Json.{
  Value, null, number, text, array, object, Values, no_values, value_and, no_members, member_and,
  field,
}
use rusty_dendrite.ExampleQuery.{Elasticsearch, handle_search_query}
use rusty_dendrite.ExampleQuery.Search.{
  Shows, no_hits, shown, skipped, test_greeting, search_query_finds,
}

abbrev hit : Value → Value
hit v = object (member_and "_source" (object (member_and "value" v no_members)) no_members)

-- A hit with a greeting, and one with a number.
abbrev hits : Values
hits = value_and (hit (text "Hello")) (value_and (hit (number none)) no_values)

abbrev response : Value
response =
    object (member_and "hits" (object (member_and "hits" (array hits) no_members)) no_members)

abbrev server : Elasticsearch String
server = record { search = λ query s. (ok response, s) }

abbrev found : SearchResponse
found = record { greetings = record { message = "Hello" } ∷ test_greeting ∷ [] }

-- An encoding of one response.
abbrev search_response : Codec SearchResponse
search_response = record { encode = λ r. ok (7 ∷ []); decode = λ buf. ok found }

abbrev IsText : Value → Type 0
IsText (text m) = Unit
IsText null = ⊥
IsText (number n) = ⊥
IsText _ = ⊥

response-hits : field (field response "hits") "hits" ≡ array hits
unfolding field
response-hits = refl

hits-Shows : Shows hits (record { message = "Hello" } ∷ [])
unfolding field
hits-Shows =
    shown (hit (text "Hello")) "Hello" _ [] refl
      (skipped (hit (number none)) no_values [] (λ m e. subst IsText (sym e) tt) no_hits)

search_query_finds_example :
    (payload : SerializedObject) × (handle_search_query search_response
        (record { query = "Hel" })
        server
        "s"
      ≡ (ok (some (record { payload = some payload })), "s"))
    × (payload.type ≡ "SearchResponse")
    × (search_response.decode payload.bytes ≡ ok found)
search_query_finds_example =
    search_query_finds search_response server (record { query = "Hel" }) response hits
      (record { message = "Hello" } ∷ []) "s" "s" refl response-hits hits-Shows (_, refl, refl)
