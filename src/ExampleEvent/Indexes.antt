-- ===== src/ExampleEvent/Indexes.antt =====
-- What the event processor of the example application keeps in Elastic Search
-- (src/example_event/mod.rs): the greetings of the history that it is streamed.
use rusty_dendrite.Prelude.{
  ℕ, suc, false, String, ◌≡◌, refl, ap, ◌∙◌, Option, none, some, List, [], ◌∷◌, length,
  if◌then◌else◌, ◌==◌,
}
use rusty_dendrite.Prelude.Int.{ℤ}
use rusty_dendrite.Io.{Io, ok}
use rusty_dendrite.Messages.{SerializedObject}
use rusty_dendrite.HashMap
use rusty_dendrite.HandlerRegistry
use rusty_dendrite.HandlerRegistry.{empty_handler_registry}
use rusty_dendrite.EventStore.{Event}
use rusty_dendrite.EventProcessor.{
  AxonEventProcessed, Events, item, unheard, end_of_stream, failed, EventWithToken, Run,
  initial_token, handle_payload,
}
use rusty_dendrite.EventProcessor.Tokens.{Unheard}
use rusty_dendrite.EventProcessor.Rounds.{
  loop, handle_payload-found, handle_payload-unknown, event_loop-nil, event_loop-failed,
  event_loop-end_of_stream, event_loop-none, event_loop-handled, event_processor-loop,
}
use rusty_dendrite.ExampleCommand.{Greeting, Codecs}
use rusty_dendrite.ExampleCommand.Spec.{GreeterEvent, greeted, started, stopped}
use rusty_dendrite.ExampleCommand.Carries.{Carries, object}
use rusty_dendrite.ExampleApi.Greetings.{greeted_in}
use rusty_dendrite.Json.{Value}
use rusty_dendrite.ExampleEvent.{
  Elasticsearch, greeting_document, token_document, store_token, token_store, apply_to,
  handle_event, event_handler_registry, process_events,
}
use rusty_dendrite.ExampleEvent.Resumes.{KeepsDocuments, process_events-world}

-- The document under an identifier after some greetings are put, one after the other.
abbrev pub indexed : (String → String) → List Greeting → String → Value → Value
indexed hash [] id v = v
indexed hash (g ∷ gs) id v =
    indexed hash gs id (if hash g.message == id then greeting_document hash g.message else v)

indexed-cons :
    (hash : String → String) (v : GreeterEvent) (vs : List GreeterEvent) (id : String) (x : Value)
    → indexed hash (greeted_in vs) id (indexed hash (greeted_in (v ∷ [])) id x)
      ≡ indexed hash (greeted_in (v ∷ vs)) id x
indexed-cons hash (greeted none) vs id x = refl
indexed-cons hash (greeted (some g)) vs id x = refl
indexed-cons hash started vs id x = refl
indexed-cons hash stopped vs id x = refl

-- The messages of a server that streams the events of the greeter that stand for a history, possibly
-- up to an error. The receiver of the reports is there for each of them.
pub data Delivers (codecs : Codecs) : Events → List GreeterEvent → Type 0 where
  over : Delivers codecs [] []
  breaks : (status : String) (messages : Events) → Delivers codecs (failed status ∷ messages) []
  delivers :
      (e : EventWithToken) (event : Event) (v : GreeterEvent) (messages : Events)
      (vs : List GreeterEvent)
      → e.event ≡ some event
      → Carries codecs event v
      → Delivers codecs messages vs
      → Delivers codecs (item e ∷ messages) (v ∷ vs)
  idles :
      (e : EventWithToken) (messages : Events) (vs : List GreeterEvent)
      → e.event ≡ none
      → Delivers codecs messages vs
      → Delivers codecs (item e ∷ messages) vs
  pauses :
      (messages : Events) (vs : List GreeterEvent)
      → Delivers codecs messages vs
      → Delivers codecs (end_of_stream ∷ messages) vs

-- The reports of the events of some messages, up to an error of the stream, each under its identifier.
abbrev pub reports : Option Event → List AxonEventProcessed → List AxonEventProcessed
reports none rest = rest
reports (some event) rest = record { message_identifier = event.message_identifier } ∷ rest

abbrev pub reported : Events → List AxonEventProcessed
reported [] = []
reported (item e ∷ messages) = reports e.event (reported messages)
reported (unheard e ∷ messages) = []
reported (end_of_stream ∷ messages) = reported messages
reported (failed status ∷ messages) = []

pub Delivers-Unheard :
    {codecs : Codecs} {messages : Events} {vs : List GreeterEvent}
    → Delivers codecs messages vs
    → ¬ Unheard messages
Delivers-Unheard over h = h
Delivers-Unheard (breaks status messages) h = h
Delivers-Unheard (delivers e event v messages vs found carried d) h = Delivers-Unheard d h
Delivers-Unheard (idles e messages vs missing d) h = Delivers-Unheard d h
Delivers-Unheard (pauses messages vs d) h = Delivers-Unheard d h

-- As many events are reported as the history has.
pub length-reported :
    {codecs : Codecs} {messages : Events} {vs : List GreeterEvent}
    → Delivers codecs messages vs
    → length (reported messages) ≡ length vs
length-reported over = refl
length-reported (breaks status messages) = refl
length-reported (delivers e event v messages vs found carried d) =
    rw found (ap suc (length-reported d))
length-reported (idles e messages vs missing d) = rw missing (length-reported d)
length-reported (pauses messages vs d) = length-reported d

module _ {S : Type 0} (hash : String → String) (es_client : Elasticsearch S)
    (document : S → String → String → Value) (keeps : KeepsDocuments es_client document)
    (codecs : Codecs) where
  abbrev pub handled : Option SerializedObject → Io S (Unit {0})
  handled =
      handle_payload (token_store hash es_client) es_client
        (event_handler_registry hash es_client codecs.greeted_event.decode)

  abbrev pub docs : S → String → Value
  docs s id = document s "greetings" id

  -- An event is handled, and what it indexes is there afterwards.
  abbrev pub Indexes : Option SerializedObject → GreeterEvent → S → Type 0
  Indexes payload v s =
      (s' : S) × (handled payload s ≡ (ok tt, s'))
      × ((id : String) → docs s' id ≡ indexed hash (greeted_in (v ∷ [])) id (docs s id))

  handled-greeted :
      (m : Option Greeting) (buf : List ℕ) (s : S)
      → codecs.greeted_event.decode buf ≡ ok (record { message = m })
      → Indexes (some (object "GreetedEvent" buf)) (greeted m) s
  unfolding event_handler_registry handle_event apply_to HandlerRegistry.insert HandlerRegistry.get
      HashMap.get HashMap.insert HashMap.contains_key empty_handler_registry
  handled-greeted none buf s decoded = (
    s,
    handle_payload-found (token_store hash es_client) es_client _ (object "GreetedEvent" buf) _ none
        s s refl (rw decoded refl),
    λ id. refl,
  )
  handled-greeted (some g) buf s decoded = (
    (es_client.index "greetings" (hash g.message) (greeting_document hash g.message) s).1,
    handle_payload-found (token_store hash es_client) es_client _ (object "GreetedEvent" buf) _ none
        s _ refl (rw decoded refl),
    λ id.
        keeps.puts "greetings" (hash g.message) (greeting_document hash g.message) s "greetings" id,
  )

  handled-other :
      (name : String) (buf : List ℕ) (s : S)
      → ("GreetedEvent" == name) ≡ false
      → handled (some (object name buf)) s ≡ (ok tt, s)
  unfolding event_handler_registry HandlerRegistry.insert HandlerRegistry.get HashMap.get
      HashMap.insert HashMap.contains_key empty_handler_registry
  handled-other name buf s other =
      handle_payload-unknown (token_store hash es_client) es_client _ (object name buf) s
        (rw other refl)

  pub handled-Carries :
      (event : Event) (v : GreeterEvent) (s : S)
      → Carries codecs event v
      → Indexes event.payload v s
  handled-Carries event (greeted m) s (buf, carried, decoded) =
      rw carried (handled-greeted m buf s decoded)
  handled-Carries event started s (buf, carried, decoded) =
      (s, rw carried (handled-other "StartedRecordingEvent" buf s refl), λ id. refl)
  handled-Carries event stopped s (buf, carried, decoded) =
      (s, rw carried (handled-other "StoppedRecordingEvent" buf s refl), λ id. refl)

  docs-store_token :
      (token : ℤ) (s : S) (id : String) → docs (store_token hash es_client token s) id ≡ docs s id
  unfolding store_token
  docs-store_token token s id =
      keeps.puts "tracking-token" "greeting" (token_document token) s "greetings" id

  -- How a run stands after the greetings of a history were put.
  abbrev Indexed : Run S → List AxonEventProcessed → List GreeterEvent → S → Type 0
  Indexed r reports vs s =
      (r.processed ≡ reports)
      × ((id : String) → docs r.world id ≡ indexed hash (greeted_in vs) id (docs s id))

  abbrev events : Events → S → Run S
  events =
      loop (token_store hash es_client) es_client
        (event_handler_registry hash es_client codecs.greeted_event.decode)

  Indexed-loop :
      {messages : Events} {vs : List GreeterEvent} (s : S)
      → Delivers codecs messages vs
      → Indexed (events messages s) (reported messages) vs s
  unfolding token_store
  Indexed-loop s over =
      rw (event_loop-nil (token_store hash es_client) es_client _ s) (refl, λ id. refl)
  Indexed-loop s (breaks status messages) =
      rw (event_loop-failed (token_store hash es_client) es_client _ status messages s)
        (refl, λ id. refl)
  Indexed-loop s (pauses messages vs d) =
      rw (event_loop-end_of_stream (token_store hash es_client) es_client _ messages s)
        (Indexed-loop s d)
  Indexed-loop s (idles e messages vs missing d) =
      rw (event_loop-none (token_store hash es_client) es_client _ e messages s missing)
        (rw missing (Indexed-loop s d))
  Indexed-loop s (delivers e event v messages vs found carried d) =
      let (s₁, done, put) = handled-Carries event v s carried in
      let s₂ = store_token hash es_client e.token s₁ in
      let (told, kept) = Indexed-loop s₂ d in
      rw
        (event_loop-handled (token_store hash es_client) es_client _ e event messages s s₁ found
          done)
        (
          rw found (ap (λ l. record { message_identifier = event.message_identifier } ∷ l) told),
          λ id.
              kept id
              ∙ ap (λ x. indexed hash (greeted_in vs) id x)
                  (docs-store_token e.token s₁ id ∙ put id)
              ∙ indexed-cons hash v vs id (docs s id),
        )

  -- Let Elastic Search keep its documents, and let the server open, for the initial token, a stream of
  -- events of the greeter that stand for a history, possibly up to an error of the stream. Then the
  -- event processor reports each of those events as processed, under its identifier and in their
  -- order, and behind them the document under
  -- each identifier of the index of greetings is the one that results when the greetings of the
  -- history are put there in their order, each under its hash.
  pub greetings_indexed :
      (list_events : ℤ → Io S Events) (messages : Events) (vs : List GreeterEvent) (n : ℤ)
      (s s' : S)
      → initial_token (token_store hash es_client) s ≡ (ok n, s)
      → list_events n s ≡ (ok messages, s')
      → Delivers codecs messages vs
      → let r = process_events hash es_client codecs.greeted_event.decode list_events s in
        (r.processed ≡ reported messages)
        × ((id : String)
            → document r.world "greetings" id
              ≡ indexed hash (greeted_in vs) id (document s' "greetings" id))
  greetings_indexed list_events messages vs n s s' token opens d =
      let (world, processed, returned) =
        process_events-world hash es_client document keeps codecs.greeted_event.decode list_events
          s in
      rw
        (
          world,
          processed,
          event_processor-loop (token_store hash es_client) es_client _ list_events messages n s s'
              token opens,
        )
        (Indexed-loop s' d)
