-- ===== src/ExampleEvent.antt =====
-- src/example_event/mod.rs: the event processor of the example application, which keeps greetings and
-- the token of the last event in Elastic Search.
pub mod Resumes
pub mod Indexes
pub mod QueryModel
pub mod Ahead
pub mod Runs
mod Tests
use rusty_dendrite.Prelude.{String, Option, none, some, [], ◌∷◌}
use rusty_dendrite.Prelude.Int.{ℤ, negsuc}
use rusty_dendrite.Io.{
  Result, ok, err, panicked, message, Io, pure, lift, with_context, ◌>>=◌, ◌>>◌,
}
use rusty_dendrite.Prelude.{map_option}
use rusty_dendrite.Messages.{Bytes}
use rusty_dendrite.HandlerRegistry
use rusty_dendrite.HandlerRegistry.{TheHandlerRegistry, empty_handler_registry}
use rusty_dendrite.EventProcessor.{Events, EventWithToken, TokenStore, Run, event_processor}
use rusty_dendrite.ExampleCommand.{Greeting, GreetedEvent}
use rusty_dendrite.Json.{
  Value, null, boolean, number, text, array, object, no_members, member_and, field,
}

-- The calls of the Elastic Search client that the program makes: to put a document under an index and
-- an identifier, and to get the response for one as JSON.
pub record Elasticsearch (S : Type 0) : Type 0 where
  pub index : String → String → Value → Io S (Unit {0})
  pub get : String → String → Io S Value

-- `if let Value::Number(token) = … { … } Ok(-1)`.
unfoldable pub token_in : Value → Result ℤ
token_in (number (some token)) = ok token
token_in (number none) = err (message "Token is not an i64")
token_in null = ok (negsuc 0)
token_in (boolean b) = ok (negsuc 0)
token_in (text t) = ok (negsuc 0)
token_in (array vs) = ok (negsuc 0)
token_in (object fields) = ok (negsuc 0)

unfoldable pub token_document : ℤ → Value
token_document token =
    object (member_and "id" (text "greeting") (member_and "token" (number (some token)) no_members))

-- `hash` is the SHA-256 of a text in base 64.
unfoldable pub greeting_document : (String → String) → String → Value
greeting_document hash value =
    object (member_and "id" (text (hash value)) (member_and "value" (text value) no_members))

module _ {S : Type 0} (hash : String → String) (es_client : Elasticsearch S) where
  -- The result of the call is logged and dropped.
  store_token : ℤ → S → S
  store_token token s = (es_client.index "tracking-token" "greeting" (token_document token) s).1

  retrieve_token : Io S ℤ
  unfolding token_in
  retrieve_token = do
    value ← es_client.get "tracking-token" "greeting"
    lift (token_in (field (field value "_source") "token"))

  -- `impl TokenStore for ExampleQueryModel`.
  unfoldable pub token_store : TokenStore S
  unfolding store_token retrieve_token
  token_store = record { store_token = store_token; retrieve_token = retrieve_token }

  -- `AsyncApplicableTo::apply_to`; the result of the call is logged and dropped.
  apply_to : Option Greeting → Io S (Unit {0})
  apply_to none s = (ok tt, s)
  apply_to (some greeting) s = (
    ok tt,
    (es_client.index "greetings" (hash greeting.message) (greeting_document hash greeting.message)
        s).1,
  )

  unfoldable pub handle_event : GreetedEvent → Io S (Unit {0})
  unfolding apply_to
  handle_event event = apply_to event.message

  -- The registry after its one insertion, and the `?` behind it. The query model is the client itself,
  -- which the handlers have at hand.
  unfoldable pub insertion :
      (Bytes → Result GreetedEvent)
      → Io (TheHandlerRegistry S (Elasticsearch S) (Option (Elasticsearch S))) (Unit {0})
  unfolding handle_event
  insertion decode =
      HandlerRegistry.insert "GreetedEvent" decode (λ event query_model. handle_event event)

  unfoldable pub event_handler_registry :
      (Bytes → Result GreetedEvent)
      → TheHandlerRegistry S (Elasticsearch S) (Option (Elasticsearch S))
  unfolding insertion
  event_handler_registry decode = (insertion decode empty_handler_registry).1

  -- `internal_process_events` once Elastic Search is there.
  unfoldable pub process_events : (Bytes → Result GreetedEvent) → (ℤ → Io S Events) → S → Run S
  unfolding insertion
  process_events decode list_events s = elim (insertion decode empty_handler_registry).0 [
    | ok _ ↦
        let run =
          event_processor token_store es_client (event_handler_registry decode) list_events s in
        record run {
          returned = map_option (λ r. with_context r "Error while handling commands") run.returned;
        }
    | err e ↦ record { processed = []; returned = some (err e); world = s }
    | panicked ↦ record { processed = []; returned = some panicked; world = s }
  ]
