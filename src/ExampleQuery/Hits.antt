-- ===== src/ExampleQuery/Hits.antt =====
-- The hits of a search of the greetings (src/example_query/mod.rs): what the application relies on of
-- Elastic Search, and which greetings the hits show.
use rusty_dendrite.Prelude.{
  ℕ, ◌+◌, ◌≤◌, String, ◌≡◌, refl, sym, ap, ◌∙◌, ◌⊎◌, inl, inr, Bool, true, false, some, subst,
  Bool-cases, List, [], ◌∷◌, All, if◌then◌else◌, arith, length,
}
use rusty_dendrite.Prelude.Int.{pos}
use rusty_dendrite.Io.{ok}
use rusty_dendrite.ExampleCommand.{Greeting}
use rusty_dendrite.ExampleEvent.{greeting_document}
use rusty_dendrite.ExampleEvent.QueryModel.{IsIn}
use rusty_dendrite.Json.{
  Value, null, boolean, number, text, array, Values, no_values, value_and, field,
}
use rusty_dendrite.ExampleQuery.{Elasticsearch}
use rusty_dendrite.ExampleQuery.Search.{Shows, no_hits, shown, skipped}
use rusty_dendrite.ExampleQuery.Greeted.{From, text_in}

-- The text that a hit shows.
abbrev pub value_of : Value → Value
value_of hit = field (field hit "_source") "value"

abbrev pub count : Values → ℕ
count no_values = 0
count (value_and hit hits) = count hits + 1

-- An answer that did not time out and for which no shard failed.
abbrev pub IsComplete : Value → Type 0
IsComplete json_value =
    (field json_value "timed_out" ≡ boolean false)
    × (field (field json_value "_shards") "failed" ≡ number (some (pos 0)))

-- A text is shown by one of the hits.
abbrev pub InHits : String → Values → Type 0
InHits m no_values = ⊥
InHits m (value_and hit hits) = (value_of hit ≡ text m) ⊎ InHits m hits

module _ {S : Type 0} (document : S → String → String → Value) where
  -- Each hit is a document of the index of greetings.
  abbrev pub AreDocuments : S → Values → Type 0
  AreDocuments s no_values = Unit
  AreDocuments s (value_and hit hits) =
      ((id : String) × (¬ (document s "greetings" id ≡ null))
        × (value_of hit ≡ field (document s "greetings" id) "value"))
      × AreDocuments s hits

  abbrev pub Covers : (String → Bool) → S → Values → Type 0
  Covers matches s hits =
      (id m : String)
      → field (document s "greetings" id) "value" ≡ text m
      → matches m ≡ true
      → InHits m hits

  -- What the example application relies on of Elastic Search for an answer that has hits and is
  -- complete, where `document` gives the documents that a search sees, those of the last refresh of
  -- the index: the hits are such documents, and all that match the query unless there are ten, which
  -- is the size of a page of hits where the request has none. An answer to a malformed query or to a
  -- search of an index that is not there has no hits, and nothing is said of it.
  pub record Searches (searcher : Elasticsearch S) (matches : String → String → Bool) : Type 0 where
    pub pages :
        (query : String) (s s' : S) (json_value : Value) (hits : Values)
        → searcher.search query s ≡ (ok json_value, s')
        → field (field json_value "hits") "hits" ≡ array hits
        → IsComplete json_value
        → AreDocuments s hits × ((10 ≤ count hits) ⊎ Covers (matches query) s hits)

-- The greetings that match.
abbrev pub matching : (String → Bool) → List Greeting → List Greeting
matching matches [] = []
matching matches (g ∷ gs) =
    if matches g.message then g ∷ matching matches gs else matching matches gs

Shows-InHits :
    (m : String) {hits : Values} {gs : List Greeting}
    → Shows hits gs
    → InHits m hits
    → IsIn (record { message = m }) gs
Shows-InHits m no_hits i = absurd i
Shows-InHits m (shown hit m' hits gs e h) (inl e') = inl (ap text_in (sym e' ∙ e))
Shows-InHits m (shown hit m' hits gs e h) (inr i) = inr (Shows-InHits m h i)
Shows-InHits m (skipped hit hits gs other h) (inl e') = absurd (other m e')
Shows-InHits m (skipped hit hits gs other h) (inr i) = Shows-InHits m h i

-- What a search sees once the index has been refreshed behind a world.
module _ {S : Type 0} (hash : String → String) (document searchable : S → String → String → Value)
    (s t : S)
    (refreshed : (id : String) → searchable t "greetings" id ≡ document s "greetings" id) where
  pub All-refreshed :
      (gs : List Greeting)
      → All (λ g. document s "greetings" (hash g.message) ≡ greeting_document hash g.message) gs
      → All (λ g. searchable t "greetings" (hash g.message) ≡ greeting_document hash g.message) gs
  All-refreshed [] all = tt
  All-refreshed (g ∷ gs) (d, all) = (refreshed (hash g.message) ∙ d, All-refreshed gs all)

  pub From-refreshed : (gs : List Greeting) → From hash document s gs → From hash searchable t gs
  From-refreshed gs from id =
      subst
        (λ x. (x ≡ null) ⊎ ((g : Greeting) × IsIn g gs × (x ≡ greeting_document hash g.message)))
        (sym (refreshed id)) (from id)

module _ {S : Type 0} (hash : String → String) (document : S → String → String → Value) (s : S)
    (gs : List Greeting) (from : From hash document s gs) where
  -- A hit that is a document of the index shows a greeting.
  document-shows :
      (hit : Value) (id : String)
      → ¬ (document s "greetings" id ≡ null)
      → value_of hit ≡ field (document s "greetings" id) "value"
      → (g : Greeting) × IsIn g gs × (value_of hit ≡ text g.message)
  unfolding field greeting_document
  document-shows hit id there e = elim (from id) [
    | inl missing ↦ absurd (there missing)
    | inr (g, i, d) ↦ (g, i, e ∙ ap (λ v. field v "value") d)
  ]

  -- Where the hits are documents of the index, each of them shows a greeting.
  pub AreDocuments-Shows :
      (hits : Values)
      → AreDocuments document s hits
      → (found : List Greeting) × Shows hits found
        × All (λ g. IsIn g gs) found
        × (length found ≡ count hits)
  AreDocuments-Shows no_values h = ([], no_hits, tt, refl)
  AreDocuments-Shows (value_and hit hits) ((id, there, e), h) =
      let (g, i, shows) = document-shows hit id there e in
      let (found, rest, all, many) = AreDocuments-Shows hits h in
      (
        record { message = g.message } ∷ found,
        shown hit g.message hits found shows rest,
        (i, all),
        omega (arith, many),
      )

  -- Where the hits cover the documents that match, each greeting that matches is among them.
  pub Covers-matching :
      (matches : String → Bool) (hits : Values) (found hs : List Greeting)
      → Shows hits found
      → Covers document matches s hits
      → All (λ g. document s "greetings" (hash g.message) ≡ greeting_document hash g.message) hs
      → All (λ g. IsIn g found) (matching matches hs)
  unfolding field greeting_document
  Covers-matching matches hits found [] shows covers all = tt
  Covers-matching matches hits found (g ∷ hs) shows covers (d, all) =
      let rest = Covers-matching matches hits found hs shows covers all in
      elim (Bool-cases (matches g.message)) [
        | inl same ↦ rw same (
          Shows-InHits g.message shows
              (covers (hash g.message) g.message (ap (λ v. field v "value") d) same),
          rest,
        )
        | inr other ↦ rw other rest
      ]
