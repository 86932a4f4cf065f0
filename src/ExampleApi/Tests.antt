-- ===== src/ExampleApi/Tests.antt =====
-- Tests of the greeter's service (src/example_api/mod.rs) in a sample world, whose server hands each
-- command to the worker of the greeter.
use rusty_dendrite.Prelude.{String, ◌≡◌, refl, true, false, Option, none, some, List, [], ◌∷◌, ◌++◌}
use rusty_dendrite.Prelude.Int.{pos, negsuc}
use rusty_dendrite.Io.{ok, err, message}
use rusty_dendrite.Messages.{Bytes, SerializedObject, Codec}
use rusty_dendrite.Runtime.{item}
use rusty_dendrite.EventStore.{Event}
use rusty_dendrite.QueryProcessor.Output.{QueryResponse}
use rusty_dendrite.CommandSubmit.{CommandServiceClient}
use rusty_dendrite.QuerySubmit.{QueryServiceClient}
use rusty_dendrite.ExampleCommand.{Greeting}
use rusty_dendrite.ExampleCommand.Spec.{
  GreeterEvent, greeted, stopped, decide, recording, greet as greet_greeter, start as start_greeter,
  stop as stop_greeter,
}
use rusty_dendrite.ExampleCommand.Carries.{Represents, object}
use rusty_dendrite.ExampleApi.{
  response, SearchQuery, SearchResponse, greet, record_greetings, stop, greetings, search,
}
use rusty_dendrite.ExampleApi.Answers.{greet_meant}
use rusty_dendrite.ExampleApi.Commands.{greet_served, record_served, stop_served}
use rusty_dendrite.ExampleApi.Greetings.{
  greeted_in, last_greeting, greetings_served, all_greetings, search_served,
}
use rusty_dendrite.Sample.CommandServer.{command_server, command_server-Routes}
use rusty_dendrite.Sample.Encodings.{
  encode_greeting, encode_text, sample_codecs, sample_codecs-AreCodecs,
}
use rusty_dendrite.Sample.World.{
  World, sample_log, sample_runtime, sample_client, sample-IsEventStore,
}

abbrev debug : String → String
debug s = s

abbrev server : CommandServiceClient World
server = command_server debug sample_codecs sample_runtime sample_client

abbrev hello : Greeting
hello = record { message = "Hello" }

abbrev empty_world : World
empty_world = record { stored = []; drawn = 0; clock = 7; token = negsuc 0 }

greet_served_example :
    let x = greet debug sample_codecs sample_runtime server hello empty_world in
    (x.0 ≡ greet_meant (recording true []) hello)
    × Represents sample_codecs
        (sample_log x.1 "xxx")
        ([] ++ (decide (recording true []) (greet_greeter (some hello))).1)
greet_served_example =
    greet_served debug sample_codecs sample_codecs-AreCodecs sample_runtime sample_client sample_log
      sample-IsEventStore server
      (command_server-Routes debug sample_codecs sample_runtime sample_client) hello [] empty_world
      (_, refl, refl) tt

record_served_example :
    let x = record_greetings debug sample_codecs sample_runtime server empty_world in
    let ws = [] ++ (decide (recording true []) start_greeter).1 in
    (x.0 ≡ response tt)
    × Represents sample_codecs (sample_log x.1 "xxx") ws
    × (recording true ws ≡ true)
record_served_example =
    record_served debug sample_codecs sample_codecs-AreCodecs sample_runtime sample_client
      sample_log sample-IsEventStore server
      (command_server-Routes debug sample_codecs sample_runtime sample_client) [] empty_world
      (_, refl, refl) tt

stop_served_example :
    let x = stop debug sample_codecs sample_runtime server empty_world in
    let ws = [] ++ (decide (recording true []) stop_greeter).1 in
    (x.0 ≡ response tt)
    × Represents sample_codecs (sample_log x.1 "xxx") ws
    × (recording true ws ≡ false)
stop_served_example =
    stop_served debug sample_codecs sample_codecs-AreCodecs sample_runtime sample_client sample_log
      sample-IsEventStore server
      (command_server-Routes debug sample_codecs sample_runtime sample_client) [] empty_world
      (_, refl, refl) tt

abbrev event_with : String → Bytes → Event
event_with type_name buf = record {
  message_identifier = "";
  aggregate_identifier = "xxx";
  aggregate_sequence_number = pos 0;
  aggregate_type = "Greeting";
  timestamp = pos 0;
  payload = some (object type_name buf);
  snapshot = false;
}

abbrev history : List GreeterEvent
history = greeted (some hello) ∷ stopped ∷ []

abbrev greeted_world : World
greeted_world = record {
  stored =
      event_with "GreetedEvent" (encode_greeting (some hello))
      ∷ event_with "StoppedRecordingEvent" []
      ∷ [];
  drawn = 0;
  clock = 7;
  token = negsuc 0;
}

greeted_world-Represents : Represents sample_codecs (sample_log greeted_world "xxx") history
greeted_world-Represents = ((_, refl, refl), ((_, refl, refl), tt))

greetings_served_example :
    greetings debug sample_codecs sample_client greeted_world
    ≡ (response (greeted_in history ++ last_greeting ∷ []), greeted_world)
greetings_served_example =
    greetings_served debug sample_codecs sample_client sample_runtime sample_log sample-IsEventStore
      history greeted_world greeted_world-Represents

-- A response with one greeting, whose encoding is the text of the greeting.
abbrev search_response : Codec SearchResponse
search_response = record {
  encode = λ r. ok [];
  decode = λ buf. ok (record { greetings = hello ∷ [] });
}

abbrev search_query : Codec SearchQuery
search_query = record { encode = λ q. ok (encode_text q.query); decode = λ buf. err (message "") }

abbrev response_with : Option SerializedObject → QueryResponse
response_with payload = record {
  message_identifier = "";
  error_code = "";
  error_message = none;
  payload = payload;
  request_identifier = "";
}

abbrev payload : SerializedObject
payload = object "SearchResponse" (1 ∷ [])

-- The response behind the one with no payload is not read.
abbrev query_server : QueryServiceClient World
query_server = record {
  query = λ r s. (
    ok (
        item (response_with (some payload))
        ∷ item (response_with none)
        ∷ item (response_with (some payload))
        ∷ []),
    s,
  );
}

search_served_example :
    search debug search_query search_response sample_runtime query_server "client"
      (record { query = "Hel" })
      empty_world
    ≡ (
      response (
          all_greetings debug search_query search_response sample_runtime query_server "client"
            (record { greetings = hello ∷ [] } ∷ [])),
      record empty_world { drawn = 1 },
    )
search_served_example =
    search_served debug search_query search_response sample_runtime query_server "client"
      (record { query = "Hel" }) _ (item (response_with (some payload)) ∷ []) (payload ∷ [])
      (record { greetings = hello ∷ [] } ∷ []) (item (response_with none))
      (item (response_with (some payload)) ∷ []) empty_world _ refl refl (refl, tt) refl (refl, tt)
