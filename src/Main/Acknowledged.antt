-- ===== src/Main/Acknowledged.antt =====
-- The application as a whole, as far as a greeting goes: from the call of the API (src/example_api/mod.rs)
-- over the greeter and the event store (src/example_command/mod.rs) to the index of greetings
-- (src/example_event/mod.rs).
use rusty_dendrite.Prelude.{
  String, ◌<>◌, ◌≡◌, refl, sym, subst, ap, ◌∙◌, inl, inr, true, false, none, some, List, [], ◌∷◌,
  ◌++◌, All, ◌==◌,
}
use rusty_dendrite.Prelude.Int.{ℤ, pos, ◌+i64◌}
use rusty_dendrite.Io.{Io, ok}
use rusty_dendrite.Runtime.{Runtime}
use rusty_dendrite.EventStore.{Event, EventStoreClient}
use rusty_dendrite.EventStore.Laws.{IsEventStore}
use rusty_dendrite.EventProcessor.{Events, item, initial_token}
use rusty_dendrite.CommandSubmit.{CommandServiceClient}
use rusty_dendrite.ExampleCommand.{Greeting, Codecs, greeting_text}
use rusty_dendrite.ExampleCommand.Spec.{
  GreeterEvent, greeted, started, stopped, greet as greet_greeter, decide, recording,
}
use rusty_dendrite.ExampleCommand.Carries.{Codes, AreCodecs, Represents}
use rusty_dendrite.ExampleApi.{response, greet}
use rusty_dendrite.ExampleApi.Routing.{Routes}
use rusty_dendrite.ExampleApi.Answers.{greet_meant}
use rusty_dendrite.ExampleApi.Commands.{greet_served}
use rusty_dendrite.ExampleApi.Greetings.{greeted_in}
use rusty_dendrite.Json.{Value, null}
use rusty_dendrite.ExampleEvent.{Elasticsearch, greeting_document, token_store, process_events}
use rusty_dendrite.ExampleEvent.Resumes.{KeepsDocuments}
use rusty_dendrite.ExampleEvent.Indexes.{Delivers, over, delivers}
use rusty_dendrite.ExampleEvent.QueryModel.{IsIn, NoCollision, query_model-Holds}

-- Stored events as the server streams them, under consecutive tokens.
abbrev pub streamed : ℤ → List Event → Events
streamed n [] = []
streamed n (e ∷ es) = item (record { token = n; event = some e }) ∷ streamed (n +i64 pos 1) es

pub Delivers-Represents :
    (codecs : Codecs) (n : ℤ) (es : List Event) (vs : List GreeterEvent)
    → Represents codecs es vs
    → Delivers codecs (streamed n es) vs
Delivers-Represents codecs n [] [] h = over
Delivers-Represents codecs n [] (v ∷ vs) h = absurd h
Delivers-Represents codecs n (e ∷ es) [] h = absurd h
Delivers-Represents codecs n (e ∷ es) (v ∷ vs) (carried, h) =
    delivers _ e v _ vs refl carried (Delivers-Represents codecs (n +i64 pos 1) es vs h)

-- The last greeting of a history is one of its greetings.
pub IsIn-last :
    (g : Greeting) (vs : List GreeterEvent) → IsIn g (greeted_in (vs ++ greeted (some g) ∷ []))
IsIn-last g [] = inl refl
IsIn-last g (greeted none ∷ vs) = IsIn-last g vs
IsIn-last g (greeted (some h) ∷ vs) = inr (IsIn-last g vs)
IsIn-last g (started ∷ vs) = IsIn-last g vs
IsIn-last g (stopped ∷ vs) = IsIn-last g vs

-- What holds of the text of every greeting of a list holds of the text of each.
text-IsIn :
    (P : String → Type 0) (gs : List Greeting) (g : Greeting)
    → All (λ h. P h.message) gs
    → IsIn g gs
    → P g.message
text-IsIn P [] g all i = absurd i
text-IsIn P (h ∷ gs) g all (inl same) = subst P (sym same) all.0
text-IsIn P (h ∷ gs) g all (inr i) = text-IsIn P gs g all.1 i

decide-greet :
    (g : Greeting)
    → (g.message == "ERROR") ≡ false
    → (decide true (greet_greeter (some g))).1 ≡ greeted (some g) ∷ []
unfolding decide greeting_text
decide-greet g fine = rw fine refl

module _ (debug : String → String) (codecs : Codecs) (valid : AreCodecs codecs) {S : Type 0}
    (rt : Runtime S) (store : EventStoreClient S) (log : S → String → List Event)
    (laws : IsEventStore rt store log) (client : CommandServiceClient S)
    (routes : Routes debug codecs rt store client) where
  -- The reply to a greeting that is recorded, and the history that the store stands for behind it.
  pub acknowledged_Represents :
      (request : Greeting) (vs : List GreeterEvent) (s : S)
      → Codes codecs.greet_command (record { aggregate_identifier = "xxx"; message = some request })
      → Represents codecs (log s "xxx") vs
      → recording true vs ≡ true
      → (request.message == "ERROR") ≡ false
      → let x = greet debug codecs rt client request s in
        (x.0 ≡ response (record { message = "ACK! " <> request.message }))
        × Represents codecs (log x.1 "xxx") (vs ++ greeted (some request) ∷ [])
  acknowledged_Represents request vs s coded history on fine =
      let (replied, grown) =
        greet_served debug codecs valid rt store log laws client routes request vs s coded
          history in
      let x = greet debug codecs rt client request s in
      (
        replied ∙ ap (λ b. greet_meant b request) on ∙ rw fine refl,
        subst (λ l. Represents codecs (log x.1 "xxx") (vs ++ l))
            (ap (λ b. (decide b (greet_greeter (some request))).1) on ∙ decide-greet request fine)
            grown,
      )

module _ (debug : String → String) (codecs : Codecs) (valid : AreCodecs codecs) {S : Type 0}
    (rt : Runtime S) (store : EventStoreClient S) (log : S → String → List Event)
    (laws : IsEventStore rt store log) (client : CommandServiceClient S)
    (routes : Routes debug codecs rt store client) (hash : String → String)
    (indexer : Elasticsearch S) (document : S → String → String → Value)
    (keeps : KeepsDocuments indexer document) (list_events : ℤ → Io S Events)
    (streams : (s : S) → list_events (pos 0) s ≡ (ok (streamed (pos 0) (log s "xxx")), s)) where
  -- Let the server keep its event store, hand a command to the greeter's worker, and stream the stored
  -- events of the greeter from the token 0 on; let the messages of the greeter encode and decode to
  -- themselves, and so the command that is sent; and let Elastic Search keep its documents. Let the
  -- store's events of the greeter stand for a history with the recorder on, and let a greeting other
  -- than `ERROR` be sent. Let the index of greetings be empty then, with no event processed, and let
  -- no two texts of the history that the greeting extends have the same hash. Then the greeting is
  -- acknowledged, and a run of the event processor that follows leaves it in the index of greetings
  -- under its hash.
  pub acknowledged_greeting_indexed :
      (request : Greeting) (vs : List GreeterEvent) (s : S)
      → Codes codecs.greet_command (record { aggregate_identifier = "xxx"; message = some request })
      → Represents codecs (log s "xxx") vs
      → recording true vs ≡ true
      → (request.message == "ERROR") ≡ false
      → NoCollision hash (greeted_in (vs ++ greeted (some request) ∷ []))
      → let x = greet debug codecs rt client request s in
        initial_token (token_store hash indexer) x.1 ≡ (ok (pos 0), x.1)
        → ((id : String) → document x.1 "greetings" id ≡ null)
        → let w = (process_events hash indexer codecs.greeted_event.decode list_events x.1).world in
          (x.0 ≡ response (record { message = "ACK! " <> request.message }))
          × (document w "greetings" (hash request.message) ≡ greeting_document hash request.message)
  acknowledged_greeting_indexed request vs s coded history on fine apart token empty =
      let (replied, stands) =
        acknowledged_Represents debug codecs valid rt store log laws client routes request vs s
          coded history on fine in
      let x = greet debug codecs rt client request s in
      let ws = vs ++ greeted (some request) ∷ [] in
      let (all, only) =
        query_model-Holds hash indexer document keeps codecs list_events _ ws (pos 0) x.1 x.1 token
          (streams x.1) (Delivers-Represents codecs (pos 0) _ ws stands) empty apart in
      let w = (process_events hash indexer codecs.greeted_event.decode list_events x.1).world in
      (
        replied,
        text-IsIn (λ t. document w "greetings" (hash t) ≡ greeting_document hash t) (greeted_in ws)
            request all (IsIn-last request vs),
      )
