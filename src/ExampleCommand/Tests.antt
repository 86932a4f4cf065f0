-- ===== src/ExampleCommand/Tests.antt =====
-- Tests of the greeter (src/example_command/mod.rs) in a sample world.
use rusty_dendrite.Prelude.{
  ◌≤◌, ◌^◌, length, arith, String, ◌≡◌, refl, Option, none, some, List, [], ◌∷◌, ◌++◌, true, false,
  ◌==◌,
}
use rusty_dendrite.Prelude.Int.{pos, negsuc}
use rusty_dendrite.Io.{ok, lift}
use rusty_dendrite.Messages.{Bytes}
use rusty_dendrite.Runtime.{item, end_of_stream, Streaming}
use rusty_dendrite.EventStore.{Event}
use rusty_dendrite.CommandWorker.Protocol.{Command, CommandProviderInbound, ack, command}
use rusty_dendrite.CommandWorker.Aggregate.{handle_command, restore}
use rusty_dendrite.ExampleCommand.{Greeting, greeting_text}
use rusty_dendrite.ExampleCommand.Setup.{greeter_definition, internal_handle_commands}
use rusty_dendrite.ExampleCommand.Spec.{
  GreeterCommand, greet, start, stop, GreeterEvent, greeted, started, stopped, acknowledged, done,
  nothing, refused, decide, recording, IsCoherent,
}
use rusty_dendrite.ExampleCommand.Carries.{object, Represents, Replies}
use rusty_dendrite.ExampleCommand.Restore.{projection_of, restore-Represents}
use rusty_dendrite.ExampleCommand.Refinement.{handle_command_refines}
use rusty_dendrite.ExampleCommand.Session.{
  conduct, Session, over, asks, acknowledges, pauses, Answered,
}
use rusty_dendrite.ExampleCommand.Session.Conducts.{greeter_conducts, greeter_history-IsCoherent}
use rusty_dendrite.ExampleCommand.Session.Numbering.{greeter_sequence_numbers}
use rusty_dendrite.EventStore.Numbers.{numbers, counted}
use rusty_dendrite.Sample.Encodings.{
  encode_text, encode_greeting, sample_codecs, sample_codecs-AreCodecs,
}
use rusty_dendrite.Sample.World.{
  World, sample_log, sample_runtime, sample_client, sample-IsEventStore,
}

abbrev hello : Option Greeting
hello = some (record { message = "Hello" })

abbrev error : Option Greeting
error = some (record { message = "ERROR" })

abbrev command_with : String → String → Bytes → Command
command_with id name buf = record {
  message_identifier = id;
  name = name;
  timestamp = pos 0;
  payload = some (object name buf);
  client_id = "";
  component_name = "";
}

abbrev greet_command : String → Option Greeting → Command
greet_command id m = command_with id "GreetCommand" (encode_greeting m)

abbrev record_command : String → Command
record_command id = command_with id "RecordCommand" (encode_text "xxx")

abbrev stop_command : String → Command
stop_command id = command_with id "StopCommand" (encode_text "xxx")

abbrev empty_world : World
empty_world = record { stored = []; drawn = 0; clock = 7; token = negsuc 0 }

-- The recorder has been stopped.
abbrev stopped_event : Event
stopped_event = record {
  message_identifier = "";
  aggregate_identifier = "xxx";
  aggregate_sequence_number = pos 0;
  aggregate_type = "Greeting";
  timestamp = pos 0;
  payload = some (object "StoppedRecordingEvent" []);
  snapshot = false;
}

abbrev stopped_world : World
stopped_world = record { stored = stopped_event ∷ []; drawn = 0; clock = 7; token = negsuc 0 }

stopped_world-Represents : Represents sample_codecs (sample_log stopped_world "xxx") (stopped ∷ [])
stopped_world-Represents = (([], refl, refl), tt)

abbrev message_of : Command → CommandProviderInbound
message_of c = record { instruction_id = ""; request = some (command c) }

abbrev session : Streaming CommandProviderInbound
session =
    item (message_of (greet_command "1" hello))
    ∷ item (record { instruction_id = ""; request = some ack })
    ∷ item (message_of (stop_command "2"))
    ∷ end_of_stream
    ∷ item (message_of (greet_command "3" hello))
    ∷ item (message_of (record_command "4"))
    ∷ item (message_of (greet_command "5" error))
    ∷ []

abbrev asked : List (String × GreeterCommand)
asked =
    ("1", greet hello) ∷ ("2", stop) ∷ ("3", greet hello) ∷ ("4", start) ∷ ("5", greet error) ∷ []

session-Session : Session sample_codecs session asked
session-Session =
    asks "" (greet_command "1" hello) (greet hello) _ _ (refl, (_, refl, ("xxx", refl)))
      (acknowledges "" _ _ (
        asks "" (stop_command "2") stop _ _ (refl, (_, refl, ("xxx", refl)))
          (pauses _ _ (
            asks "" (greet_command "3" hello) (greet hello) _ _ (refl, (_, refl, ("xxx", refl)))
              (asks "" (record_command "4") start _ _ (refl, (_, refl, ("xxx", refl)))
                (asks "" (greet_command "5" error) (greet error) _ _
                  (refl, (_, refl, ("xxx", refl))) over))))))

-- What the specification says of the session.
conduct-session : conduct [] asked ≡ (
  ("1", acknowledged "ACK! Hello")
      ∷ ("2", done)
      ∷ ("3", nothing)
      ∷ ("4", done)
      ∷ ("5", refused)
      ∷ [],
  greeted hello ∷ stopped ∷ started ∷ [],
)
unfolding conduct decide recording greeting_text
conduct-session = refl

greeter_conducts_example :
    let r =
      internal_handle_commands sample_codecs sample_runtime sample_client
        (lift (ok session))
        empty_world in
    (r.returned ≡ none)
    × Answered sample_codecs r.sent (conduct [] asked).0
    × Represents sample_codecs (sample_log r.world "xxx") (conduct [] asked).1
greeter_conducts_example =
    greeter_conducts sample_codecs sample_codecs-AreCodecs sample_runtime sample_client sample_log
      sample-IsEventStore (lift (ok session)) session asked [] empty_world empty_world refl
      session-Session tt

greeter_history-IsCoherent_example :
    (ws : List GreeterEvent) × Represents sample_codecs
      (sample_log
        (internal_handle_commands sample_codecs sample_runtime sample_client
          (lift (ok session))
          empty_world).world
        "xxx")
      ws
    × IsCoherent true ws
greeter_history-IsCoherent_example =
    greeter_history-IsCoherent sample_codecs sample_codecs-AreCodecs sample_runtime sample_client
      sample_log sample-IsEventStore (lift (ok session)) session asked [] empty_world empty_world
      refl session-Session tt tt

session-fits : length (conduct (stopped ∷ []) asked).1 ≤ 2 ^ 63
unfolding conduct decide recording greeting_text
session-fits = omega arith

greeter_sequence_numbers_example :
    let r =
      internal_handle_commands sample_codecs sample_runtime sample_client
        (lift (ok session))
        stopped_world in
    numbers (sample_log r.world "xxx") ≡ counted 0 (length (conduct (stopped ∷ []) asked).1)
greeter_sequence_numbers_example =
    greeter_sequence_numbers sample_codecs sample_codecs-AreCodecs sample_runtime sample_client
      sample_log sample-IsEventStore (lift (ok session)) session asked (stopped ∷ []) stopped_world
      stopped_world refl session-Session stopped_world-Represents (refl, refl, tt) session-fits

handle_command_refines_example :
    let x =
      handle_command sample_runtime
        (greeter_definition sample_codecs)
        (record_command "9")
        sample_client
        stopped_world in
    let d = decide (recording true (stopped ∷ [])) start in
    Replies sample_codecs x.0 d.0
    × Represents sample_codecs (sample_log x.1 "xxx") (stopped ∷ [] ++ d.1)
    × ((j : String) → ("xxx" == j) ≡ false → sample_log x.1 j ≡ sample_log stopped_world j)
handle_command_refines_example =
    handle_command_refines sample_codecs sample_codecs-AreCodecs sample_runtime sample_client
      sample_log sample-IsEventStore (record_command "9") start (stopped ∷ []) stopped_world
      (refl, (_, refl, ("xxx", refl))) stopped_world-Represents

restore-Represents_example :
    restore (greeter_definition sample_codecs) sample_client (some "xxx") stopped_world
    ≡ (ok (projection_of (recording true (stopped ∷ []))), stopped_world)
restore-Represents_example =
    restore-Represents sample_codecs sample_runtime sample_client sample_log sample-IsEventStore
      (stopped ∷ []) stopped_world stopped_world-Represents
