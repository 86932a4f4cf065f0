-- ===== src/ExampleEvent/QueryModel.antt =====
-- The greetings in Elastic Search behind a run of the event processor of the example application
-- (src/example_event/mod.rs): those of the history, and no other.
mod Tests
use rusty_dendrite.Prelude.{
  String, ◌≡◌, refl, sym, ap, ◌∙◌, ◌⊎◌, inl, inr, Bool-cases, List, [], ◌∷◌, All, ◌==◌, eq_iff,
  eq_refl,
}
use rusty_dendrite.Prelude.Int.{ℤ}
use rusty_dendrite.Io.{Io, ok}
use rusty_dendrite.EventProcessor.{Events, EventWithToken, initial_token}
use rusty_dendrite.ExampleCommand.{Greeting, Codecs}
use rusty_dendrite.ExampleCommand.Spec.{GreeterEvent}
use rusty_dendrite.ExampleApi.Greetings.{greeted_in}
use rusty_dendrite.Json.{Value, null}
use rusty_dendrite.ExampleEvent.{Elasticsearch, greeting_document, token_store, process_events}
use rusty_dendrite.ExampleEvent.Resumes.{KeepsDocuments}
use rusty_dendrite.ExampleEvent.Indexes.{indexed, Delivers, greetings_indexed}

abbrev pub IsIn : Greeting → List Greeting → Type 0
IsIn g [] = ⊥
IsIn g (h ∷ gs) = (g.message ≡ h.message) ⊎ IsIn g gs

All-IsIn :
    {P : Greeting → Type 0} (gs : List Greeting) → ((g : Greeting) → IsIn g gs → P g) → All P gs
All-IsIn [] h = tt
All-IsIn (g ∷ gs) h = (h g (inl refl), All-IsIn gs (λ a i. h a (inr i)))

module _ (hash : String → String) where
  -- Greetings with the same hash have the same text.
  abbrev pub NoCollision : List Greeting → Type 0
  NoCollision gs =
      (a b : Greeting)
      → IsIn a gs
      → IsIn b gs
      → hash a.message ≡ hash b.message
      → a.message ≡ b.message

  -- A document that is put stays where only greetings with its text are put under its identifier.
  indexed-same :
      (m : String) (gs : List Greeting) (v : Value)
      → ((b : Greeting) → IsIn b gs → hash b.message ≡ hash m → b.message ≡ m)
      → v ≡ greeting_document hash m
      → indexed hash gs (hash m) v ≡ greeting_document hash m
  indexed-same m [] v apart e = e
  indexed-same m (g ∷ gs) v apart e = elim (Bool-cases (hash g.message == hash m)) [
    | inl same ↦
        indexed-same m gs _ (λ b i. apart b (inr i))
          (rw same (ap (greeting_document hash) (apart g (inl refl) ((eq_iff _ _).0 same))))
    | inr other ↦ indexed-same m gs _ (λ b i. apart b (inr i)) (rw other e)
  ]

  indexed-IsIn :
      (g : Greeting) (gs : List Greeting) (v : Value)
      → NoCollision gs
      → IsIn g gs
      → indexed hash gs (hash g.message) v ≡ greeting_document hash g.message
  indexed-IsIn g [] v apart i = absurd i
  indexed-IsIn g (h ∷ gs) v apart (inl e) =
      indexed-same g.message gs _ (λ b i. apart b g (inr i) (inl e))
        (rw (ap hash (sym e), eq_refl (hash g.message)) (ap (greeting_document hash) (sym e)))
  indexed-IsIn g (h ∷ gs) v apart (inr i) =
      indexed-IsIn g gs _ (λ a b i j. apart a b (inr i) (inr j)) i

  -- What is under an identifier was there before, or is the document of one of the greetings.
  indexed-from :
      (gs : List Greeting) (id : String) (v : Value)
      → (indexed hash gs id v ≡ v)
        ⊎ ((g : Greeting) × IsIn g gs × (indexed hash gs id v ≡ greeting_document hash g.message))
  indexed-from [] id v = inl refl
  indexed-from (h ∷ gs) id v = elim (Bool-cases (hash h.message == id)) [
    | inl same ↦ elim (indexed-from gs id (greeting_document hash h.message)) [
      | inl e ↦ inr (h, inl refl, rw same e)
      | inr (g, i, e) ↦ inr (g, inr i, rw same e)
    ]
    | inr other ↦ elim (indexed-from gs id v) [
      | inl e ↦ inl (rw other e)
      | inr (g, i, e) ↦ inr (g, inr i, rw other e)
    ]
  ]

  -- Documents that result when some greetings, no two texts of which have the same hash, are put into
  -- an empty index: each greeting is there, and there is no other document.
  pub indexed-Holds :
      (gs : List Greeting) (d e : String → Value)
      → ((id : String) → d id ≡ indexed hash gs id (e id))
      → ((id : String) → e id ≡ null)
      → NoCollision gs
      → All (λ g. d (hash g.message) ≡ greeting_document hash g.message) gs
        × ((id : String)
            → (d id ≡ null)
              ⊎ ((g : Greeting) × IsIn g gs × (d id ≡ greeting_document hash g.message)))
  indexed-Holds gs d e put empty apart = (
    All-IsIn gs (λ g i. put (hash g.message) ∙ indexed-IsIn g gs _ apart i),
    λ id. elim (indexed-from gs id (e id)) [
      | inl same ↦ inl (put id ∙ same ∙ empty id)
      | inr (g, i, same) ↦ inr (g, i, put id ∙ same)
    ],
  )

module _ {S : Type 0} (hash : String → String) (es_client : Elasticsearch S)
    (document : S → String → String → Value) (keeps : KeepsDocuments es_client document)
    (codecs : Codecs) where
  -- Let Elastic Search keep its documents and have no greetings yet, and let the server open, for the
  -- initial token, a stream of events of the greeter that stand for a history in which no two texts
  -- have the same hash. Then Elastic Search has, behind the run, every greeting of the history under
  -- its hash, and no other document in the index of greetings.
  pub query_model-Holds :
      (list_events : ℤ → Io S Events) (messages : Events) (vs : List GreeterEvent) (n : ℤ)
      (s s' : S)
      → initial_token (token_store hash es_client) s ≡ (ok n, s)
      → list_events n s ≡ (ok messages, s')
      → Delivers codecs messages vs
      → ((id : String) → document s' "greetings" id ≡ null)
      → NoCollision hash (greeted_in vs)
      → let w = (process_events hash es_client codecs.greeted_event.decode list_events s).world in
        All
          (λ g. document w "greetings" (hash g.message) ≡ greeting_document hash g.message)
          (greeted_in vs)
        × ((id : String)
            → (document w "greetings" id ≡ null)
              ⊎ ((g : Greeting) × IsIn g (greeted_in vs)
                  × (document w "greetings" id ≡ greeting_document hash g.message)))
  query_model-Holds list_events messages vs n s s' token opens d empty apart =
      let (counted, put) =
        greetings_indexed hash es_client document keeps codecs list_events messages vs n s s' token
          opens d in
      indexed-Holds hash (greeted_in vs) (document _ "greetings") (document s' "greetings") put
        empty apart
