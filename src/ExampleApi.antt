-- ===== src/ExampleApi.antt =====
-- src/example_api/mod.rs: the calls of the greeter's service, which become commands and queries. The
-- greetings that a call streams are those that its task sends to the channel, whose receiver lives
-- until the end of the task.
pub mod Routing
pub mod Answers
pub mod Commands
pub mod Greetings
mod Tests
use rusty_dendrite.Prelude.{
  String, ◌<>◌, Option, none, some, List, [], ◌∷◌, ◌++◌, map_option, flatten, ◌==◌, if◌then◌else◌,
}
use rusty_dendrite.Io.{Result, ok, err, panicked, Error, to_string, Io}
use rusty_dendrite.Messages.{Bytes, SerializedObject, Codec}
use rusty_dendrite.Runtime.{Runtime}
use rusty_dendrite.EventStore.{Event, EventStoreClient, query_events_from_client}
use rusty_dendrite.CommandSubmit.{CommandServiceClient, send_command}
use rusty_dendrite.QuerySubmit.{QueryServiceClient, send_query}
use rusty_dendrite.ExampleCommand.{Greeting, Acknowledgement, GreetedEvent, Codecs}

-- The result of a call: a response, the text of a status that is `unknown`, or a panic.
pub data Reply (A : Type 0) : Type 0 where
  response : A → Reply A
  status : String → Reply A
  aborted : Reply A

pub record SearchQuery : Type 0 where
  pub query : String

pub record SearchResponse : Type 0 where
  pub greetings : List Greeting

-- `r.ok()`.
ok_of : {A : Type 0} → Result A → Option A
ok_of (ok a) = some a
ok_of (err e) = none
ok_of panicked = none

module _ (debug : String → String) where
  -- `to_status`, and a response made of the value.
  pub served : {A B : Type 0} → (A → Reply B) → Result A → Reply B
  served f (ok a) = f a
  served f (err e) = status (to_string debug e)
  served f panicked = aborted

  module _ (codecs : Codecs) {S : Type 0} (rt : Runtime S) (client : CommandServiceClient S) where
    pub greet_reply : Greeting → Option SerializedObject → Reply Acknowledgement
    greet_reply request (some serialized) =
        served (λ reply. response reply) (codecs.acknowledgement.decode serialized.bytes)
    greet_reply request none = response (record { message = "Hello " <> request.message <> "!" })

    unfoldable pub greet : Greeting → S → Reply Acknowledgement × S
    unfolding served greet_reply
    greet request s =
        let sent =
          send_command rt client "GreetCommand"
            (codecs.greet_command.encode
              (record { aggregate_identifier = "xxx"; message = some request }))
            s in
        (served (greet_reply request) sent.0, sent.1)

    unfoldable pub record_greetings : S → Reply (Unit {0}) × S
    unfolding served
    record_greetings s =
        let sent =
          send_command rt client "RecordCommand"
            (codecs.record_command.encode (record { aggregate_identifier = "xxx" })) s in
        (served (λ _. response tt) sent.0, sent.1)

    unfoldable pub stop : S → Reply (Unit {0}) × S
    unfolding served
    stop s =
        let sent =
          send_command rt client "StopCommand"
            (codecs.stop_command.encode (record { aggregate_identifier = "xxx" })) s in
        (served (λ _. response tt) sent.0, sent.1)

  module _ (codecs : Codecs) {S : Type 0} (client : EventStoreClient S) where
    greeting_in : Option SerializedObject → Option Greeting
    unfolding ok_of
    greeting_in none = none
    greeting_in (some payload) =
        if payload.type == "GreetedEvent"
        then flatten
            (map_option (λ e. e.message) (ok_of (codecs.greeted_event.decode payload.bytes)))
        else none

    -- `if let Some(greeting) = …` before the rest of the loop.
    sent_before : Option Greeting → List Greeting → List Greeting
    sent_before none rest = rest
    sent_before (some greeting) rest = greeting ∷ rest

    greetings_in : List Event → List Greeting
    greetings_in [] = record { message = "End of stream -oo-" } ∷ []
    greetings_in (event ∷ events) = sent_before (greeting_in event.payload) (greetings_in events)

    unfoldable pub greetings : S → Reply (List Greeting) × S
    unfolding served greetings_in sent_before greeting_in
    greetings s =
        let queried = query_events_from_client client "xxx" s in
        (served (λ events. response (greetings_in events)) queried.0, queried.1)

  module _ (search_query : Codec SearchQuery) (search_response : Codec SearchResponse) {S : Type 0}
      (rt : Runtime S) (client : QueryServiceClient S) (client_id : String) where
    found_in : Result SearchResponse → List Greeting
    found_in (ok found) = found.greetings
    found_in (err e) = []
    found_in panicked = []

    found_all : List SerializedObject → List Greeting
    found_all [] = []
    found_all (serialized_object ∷ rest) =
        found_in (search_response.decode serialized_object.bytes) ++ found_all rest

    unfoldable pub search : SearchQuery → S → Reply (List Greeting) × S
    unfolding served found_all found_in
    search request s =
        let sent = send_query rt client client_id "SearchQuery" (search_query.encode request) s in
        (served (λ query_response. response (found_all query_response)) sent.0, sent.1)
