-- ===== src/ExampleApi/Commands.antt =====
-- What the calls of the greeter's service do that send a command (src/example_api/mod.rs), when the
-- command goes through AxonServer to the worker of the greeter and back.
use rusty_dendrite.Prelude.{String, ◌≡◌, refl, sym, subst, true, false, Option, some, List, ◌++◌}
use rusty_dendrite.Io.{ok, Outcome}
use rusty_dendrite.Messages.{Bytes}
use rusty_dendrite.Runtime.{Runtime}
use rusty_dendrite.EventStore.{Event, EventStoreClient}
use rusty_dendrite.EventStore.Laws.{IsEventStore}
use rusty_dendrite.CommandWorker.Emit.{EmitEventsAndResponse}
use rusty_dendrite.CommandWorker.Aggregate.{handle_command}
use rusty_dendrite.CommandSubmit.{CommandServiceClient, command_of, send_command}
use rusty_dendrite.ExampleCommand.{Greeting, Codecs}
use rusty_dendrite.ExampleCommand.Setup.{greeter_definition}
use rusty_dendrite.ExampleCommand.Spec.{
  GreeterCommand, greet as greet_greeter, start as start_greeter, stop as stop_greeter,
  GreeterEvent, decide, recording, recording-start, recording-stop,
}
use rusty_dendrite.ExampleCommand.Carries.{Codes, AreCodecs, Represents, Asks}
use rusty_dendrite.ExampleCommand.Refinement.{handle_command_refines}
use rusty_dendrite.ExampleCommand.Session.{Stands}
use rusty_dendrite.ExampleCommand.Session.Conducts.{captured-Replies}
use rusty_dendrite.ExampleApi.{response, greet, record_greetings, stop}
use rusty_dendrite.ExampleApi.Routing.{Routes, returned_by, command_made, send_command-routed}
use rusty_dendrite.ExampleApi.Answers.{greet_meant, replied-decide, emptied-start, emptied-stop}

module _ (debug : String → String) (codecs : Codecs) (valid : AreCodecs codecs) {S : Type 0}
    (rt : Runtime S) (store : EventStoreClient S) (log : S → String → List Event)
    (laws : IsEventStore rt store log) (client : CommandServiceClient S)
    (routes : Routes debug codecs rt store client) where
  -- One command through the server and back: what is sent, and what the store then stands for.
  sent_command :
      (command_type : String) (buf : Bytes) (cmd : GreeterCommand) (vs : List GreeterEvent) (s : S)
      → Asks codecs (command_made debug codecs rt store client routes command_type buf s) cmd
      → Represents codecs (log s "xxx") vs
      → let d = decide (recording true vs) cmd in
        let x =
          handle_command rt
            (greeter_definition codecs)
            (command_made debug codecs rt store client routes command_type buf s)
            store
            (rt.new_v4 s).1 in
        (o : Outcome (Option EmitEventsAndResponse)) × Stands codecs o d.0
        × (send_command rt client command_type (ok buf) s ≡ (returned_by debug o, x.1))
        × Represents codecs (log x.1 "xxx") (vs ++ d.1)
  sent_command command_type buf cmd vs s asks history =
      let c = command_made debug codecs rt store client routes command_type buf s in
      let (replies, grown, others) =
        handle_command_refines codecs valid rt store log laws c cmd vs (rt.new_v4 s).1 asks
          (subst (λ l. Represents codecs l vs) (sym (laws.draws s "xxx")) history) in
      let (o, caught, stands) = captured-Replies codecs _ _ replies in
      (
        o,
        stands,
        send_command-routed debug codecs rt store client routes command_type buf s o caught,
        grown,
      )

  -- Let the server keep its event store and hand a command to the greeter's worker, let the
  -- messages of the greeter encode and decode to themselves, and so the command that is sent. Let
  -- the store's events of the greeter stand for a history. Then a greeting is acknowledged when the
  -- recorder is on, greeted back when it is off, and refused with the status of the error for the
  -- text `ERROR` when it is on; and the history that the store stands for grows by what the
  -- specification adds.
  pub greet_served :
      (request : Greeting) (vs : List GreeterEvent) (s : S)
      → Codes codecs.greet_command (record { aggregate_identifier = "xxx"; message = some request })
      → Represents codecs (log s "xxx") vs
      → let x = greet debug codecs rt client request s in
        (x.0 ≡ greet_meant (recording true vs) request)
        × Represents codecs
            (log x.1 "xxx")
            (vs ++ (decide (recording true vs) (greet_greeter (some request))).1)
  unfolding greet command_of
  greet_served request vs s (buf, encoded, decoded) history =
      let (o, stands, sent, grown) =
        sent_command "GreetCommand" buf (greet_greeter (some request)) vs s
          (refl, (_, refl, ("xxx", decoded))) history in
      rw (encoded, sent)
        (replied-decide debug codecs valid rt client request (recording true vs) o stands, grown)

  -- Let the server keep its event store and hand a command to the greeter's worker, let the
  -- messages of the greeter encode and decode to themselves, and so the command that is sent. Let
  -- the store's events of the greeter stand for a history. Then `record` answers with an empty
  -- response, the history grows by what the specification adds for a start, and the recorder is on
  -- after it.
  pub record_served :
      (vs : List GreeterEvent) (s : S)
      → Codes codecs.record_command (record { aggregate_identifier = "xxx" })
      → Represents codecs (log s "xxx") vs
      → let x = record_greetings debug codecs rt client s in
        let ws = vs ++ (decide (recording true vs) start_greeter).1 in
        (x.0 ≡ response tt) × Represents codecs (log x.1 "xxx") ws × (recording true ws ≡ true)
  unfolding record_greetings command_of
  record_served vs s (buf, encoded, decoded) history =
      let (o, stands, sent, grown) =
        sent_command "RecordCommand" buf start_greeter vs s (refl, (_, refl, ("xxx", decoded)))
          history in
      rw (encoded, sent)
        (emptied-start debug codecs valid (recording true vs) o stands, grown, recording-start vs)

  -- Let the server keep its event store and hand a command to the greeter's worker, let the
  -- messages of the greeter encode and decode to themselves, and so the command that is sent. Let
  -- the store's events of the greeter stand for a history. Then `stop` answers with an empty
  -- response, the history grows by what the specification adds for a stop, and the recorder is off
  -- after it.
  pub stop_served :
      (vs : List GreeterEvent) (s : S)
      → Codes codecs.stop_command (record { aggregate_identifier = "xxx" })
      → Represents codecs (log s "xxx") vs
      → let x = stop debug codecs rt client s in
        let ws = vs ++ (decide (recording true vs) stop_greeter).1 in
        (x.0 ≡ response tt) × Represents codecs (log x.1 "xxx") ws × (recording true ws ≡ false)
  unfolding stop command_of
  stop_served vs s (buf, encoded, decoded) history =
      let (o, stands, sent, grown) =
        sent_command "StopCommand" buf stop_greeter vs s (refl, (_, refl, ("xxx", decoded)))
          history in
      rw (encoded, sent)
        (emptied-stop debug codecs valid (recording true vs) o stands, grown, recording-stop vs)
