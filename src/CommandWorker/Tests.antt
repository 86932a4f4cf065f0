-- ===== src/CommandWorker/Tests.antt =====
-- Tests of the command worker (src/axon_utils/command_worker.rs) in a sample world, with a registry
-- of two aggregates.
use rusty_dendrite.Prelude.{
  ◌++◌, arith, ◌⊎◌, ℕ, ◌+◌, ◌≤◌, String, ◌≡◌, refl, ◌⊎◌, none, some, List, [], ◌∷◌, map, length,
}
use mathlib.Core.List.{Nodup}
use rusty_dendrite.Prelude.Int.{pos, negsuc, ◌+i64◌, ◌-i64◌}
use rusty_dendrite.Io.{Io, lift, ok, err, panicked, message, done, raised, pure, attempt}
use rusty_dendrite.Runtime.{item, end_of_stream, failed, Streaming}
use rusty_dendrite.HashMap
use rusty_dendrite.HashMap.{Distinct}
use rusty_dendrite.Permits.{settle, initial_permits}
use rusty_dendrite.Channel
use rusty_dendrite.Channel.{System, Reach, here, next, send, receive, start, capacity}
use rusty_dendrite.Identifiers.{ids_from}
use rusty_dendrite.CommandWorker.Protocol.{
  CommandProviderInbound, CommandProviderOutbound, ack, command,
}
use rusty_dendrite.CommandWorker.Emit.{EmitEventsAndResponse}
use rusty_dendrite.CommandWorker.Aggregate.{AggregateHandle}
use rusty_dendrite.CommandWorker.Registry
use rusty_dendrite.CommandWorker.Registry.{TheAggregateRegistry, registered, find_aggregate}
use rusty_dendrite.CommandWorker.Worker.{AxonCommandResult, run_worker, command_worker}
use rusty_dendrite.CommandWorker.Worker.Answers.{
  command_ids, sent_ids, first_failure, command_worker_answers, command_worker_ends,
}
use rusty_dendrite.CommandWorker.Output.{
  StreamState, settled, grant, respond, opening, create_output_stream,
}
use rusty_dendrite.CommandWorker.Output.Answers.{answered, answer_to}
use rusty_dendrite.CommandWorker.Output.FlowControl.{granted}
use rusty_dendrite.CommandWorker.Output.Outstanding.{Margin, commands_outstanding}
use rusty_dendrite.CommandWorker.Output.Delivery.{tasks, commands_delivered}
use rusty_dendrite.CommandWorker.Output.Identifiers.{identifiers, command_stream_identifiers}
use rusty_dendrite.Sample.World.{World, sample_uuid, sample_uuid-IsInjective, sample_client}

abbrev empty_world : World
empty_world = record { stored = []; drawn = 0; clock = 7; token = negsuc 0 }

abbrev response : EmitEventsAndResponse
response = record {
  events = [];
  response = some (record { type = "T"; revision = ""; bytes = 5 ∷ [] });
}

-- An aggregate that answers each command, and one that fails.
abbrev answering : AggregateHandle World
answering = record {
  name = "A";
  handle = λ c client. pure (some response);
  command_names = "open" ∷ "close" ∷ [];
}

abbrev failing : AggregateHandle World
failing = record {
  name = "B";
  handle = λ c client s. (err (message "failed"), s);
  command_names = "break" ∷ [];
}

abbrev registry : TheAggregateRegistry World
registry = record { handlers = ("A", answering) ∷ ("B", failing) ∷ [] }

abbrev message_of : String → String → CommandProviderInbound
message_of id name = record {
  instruction_id = "";
  request = some (
      command (record {
        message_identifier = id;
        name = name;
        timestamp = pos 0;
        payload = none;
        client_id = "";
        component_name = "";
      }));
}

abbrev messages : Streaming CommandProviderInbound
messages =
    item (message_of "1" "open")
    ∷ item (record { instruction_id = ""; request = some ack })
    ∷ item (message_of "2" "break")
    ∷ end_of_stream
    ∷ item (message_of "3" "unknown")
    ∷ []

abbrev opening_stream : Io World (Streaming CommandProviderInbound)
opening_stream = lift (ok messages)

abbrev first : AxonCommandResult
first = record { message_identifier = "1"; result = done (some response) }

abbrev second : AxonCommandResult
second = record { message_identifier = "2"; result = raised (message "failed") }

abbrev third : AxonCommandResult
third = record {
  message_identifier = "3";
  result = raised (message "Could not find aggregate handler");
}

abbrev results : List AxonCommandResult
results = first ∷ second ∷ third ∷ []

-- The results of the three commands.
sent-results : (command_worker registry sample_client opening_stream empty_world).sent ≡ results
unfolding command_worker run_worker find_aggregate Registry.get HashMap.get HashMap.insert attempt
sent-results = refl

running : (command_worker registry sample_client opening_stream empty_world).returned ≡ none
unfolding command_worker run_worker find_aggregate Registry.get HashMap.get HashMap.insert attempt
running = refl

command_worker_answers_example :
    sent_ids (command_worker registry sample_client opening_stream empty_world)
    ≡ command_ids messages
command_worker_answers_example =
    command_worker_answers registry sample_client opening_stream messages empty_world empty_world
      refl running

command_worker_ends_example :
    let r =
      command_worker registry sample_client (lift (ok (failed "broken" ∷ messages))) empty_world in
    (r.returned ≡ none)
    ⊎ (r.returned ≡ some panicked)
    ⊎ ((code : String) × (first_failure (failed "broken" ∷ messages) ≡ some code)
        × (r.returned ≡ some (err (message code))))
command_worker_ends_example =
    command_worker_ends registry sample_client (lift (ok (failed "broken" ∷ messages)))
      (failed "broken" ∷ messages) empty_world empty_world refl

-- A name for each error that is not a text.
abbrev debug : String → String
debug s = s

abbrev begun : List CommandProviderOutbound × StreamState
begun = opening sample_uuid debug "client" ("open" ∷ [])

-- All three results are received, and the third one is answered; the grant behind it is still to be
-- yielded.
abbrev round : StreamState → AxonCommandResult → List CommandProviderOutbound × StreamState
round = respond sample_uuid debug "client"

abbrev one : List CommandProviderOutbound × StreamState
one = round begun.1 first

abbrev two : List CommandProviderOutbound × StreamState
two = round one.1 second

abbrev three : List CommandProviderOutbound × StreamState
three = round two.1 third

abbrev halfway : System AxonCommandResult CommandProviderOutbound StreamState
halfway = record {
  pending = [];
  buffer = [];
  variables = three.1;
  yielded = ((begun.0 ++ Channel.first one.0) ++ Channel.first two.0) ++ Channel.first three.0;
  outbox = Channel.left three.0;
}

reached : Reach round (start round begun.1 results begun.0) halfway
unfolding respond settled settle opening ◌-i64◌ initial_permits
reached =
    next
      (next
        (next
          (next
            (next (next here (send first (second ∷ third ∷ []) [] begun.1 begun.0 [] (omega arith)))
              (send second (third ∷ []) (first ∷ []) begun.1 begun.0 [] (omega arith)))
            (receive first (third ∷ []) (second ∷ []) begun.1 begun.0))
          (send third [] (second ∷ []) one.1 (begun.0 ++ Channel.first one.0) [] (omega arith)))
        (receive second [] (third ∷ []) one.1 (begun.0 ++ Channel.first one.0)))
      (receive third [] [] two.1 ((begun.0 ++ Channel.first one.0) ++ Channel.first two.0))

-- A grant is what the stream yields next.
granting : granted halfway.outbox ≡ 3
unfolding respond settled settle opening grant ◌+i64◌ ◌-i64◌ initial_permits
granting = refl

commands_outstanding_example :
    (length halfway.buffer ≤ capacity)
    × ((received : List AxonCommandResult) × (results
          ≡ received ++ (halfway.buffer ++ halfway.pending))
        × (answered halfway.yielded ≡ map (answer_to debug) received)
        × Margin (length received) halfway.yielded halfway.outbox
        × (granted halfway.yielded ≤ length received + 6))
commands_outstanding_example =
    commands_outstanding sample_uuid debug "client" ("open" ∷ []) results reached

command_stream_identifiers_example :
    let out = create_output_stream sample_uuid debug "client" ("open" ∷ []) results in
    Nodup (identifiers out) × ((k : ℕ) × (identifiers out ≡ ids_from sample_uuid 0 k))
command_stream_identifiers_example =
    command_stream_identifiers sample_uuid debug "client" ("open" ∷ []) results
      sample_uuid-IsInjective

abbrev sample_tasks : System AxonCommandResult CommandProviderOutbound StreamState
sample_tasks =
    tasks registry sample_client opening_stream messages empty_world empty_world refl sample_uuid
      debug "client" ("open" ∷ [])

commands_delivered_example :
    (u : System AxonCommandResult CommandProviderOutbound StreamState) × Reach
      (respond sample_uuid debug "client")
      sample_tasks
      u
    × (map (λ a. a.request_identifier) (answered u.yielded) ≡ command_ids messages)
    × (answered u.yielded
        ≡ map
            (answer_to debug)
            (command_worker registry sample_client opening_stream empty_world).sent)
commands_delivered_example =
    commands_delivered registry sample_client opening_stream messages empty_world empty_world refl
      sample_uuid debug "client" ("open" ∷ []) running here
