-- ===== src/ExampleCommand/Session.antt =====
-- A session of the greeter (`internal_handle_commands` of src/example_command/mod.rs): the command
-- worker over its registry handles a stream of messages, of which some are commands.
pub mod Conducts
pub mod Numbering
use rusty_dendrite.Prelude.{String, ◌≡◌, true, Option, some, List, [], ◌∷◌, ◌++◌}
use rusty_dendrite.Io.{Result, ok, Outcome, captured}
use rusty_dendrite.Runtime.{item, end_of_stream, Streaming}
use rusty_dendrite.CommandWorker.Protocol.{Command, CommandProviderInbound, ack, command}
use rusty_dendrite.CommandWorker.Emit.{EmitEventsAndResponse}
use rusty_dendrite.CommandWorker.Worker.{AxonCommandResult}
use rusty_dendrite.ExampleCommand.{Codecs}
use rusty_dendrite.ExampleCommand.Spec.{
  GreeterCommand, GreeterEvent, Reply, decide, recording, IsCoherent, history-IsCoherent,
}
use rusty_dendrite.ExampleCommand.Carries.{Asks, Replies}

-- The replies of the specification to some commands after a history, and the history after them.
unfoldable pub conduct :
    List GreeterEvent → List (String × GreeterCommand) → List (String × Reply) × List GreeterEvent
conduct vs [] = ([], vs)
conduct vs ((id, cmd) ∷ asked) =
    let d = decide (recording true vs) cmd in
    let rest = conduct (vs ++ d.1) asked in ((id, d.0) ∷ rest.0, rest.1)

pub conduct-IsCoherent :
    (vs : List GreeterEvent) (asked : List (String × GreeterCommand))
    → IsCoherent true vs
    → IsCoherent true (conduct vs asked).1
unfolding conduct
conduct-IsCoherent vs [] h = h
conduct-IsCoherent vs ((id, cmd) ∷ asked) h =
    conduct-IsCoherent (vs ++ (decide (recording true vs) cmd).1) asked
      (history-IsCoherent vs cmd h)

module _ (codecs : Codecs) where
  -- The messages of a server that asks some commands of the greeter, under their identifiers.
  pub data Session
      : Streaming CommandProviderInbound → List (String × GreeterCommand) → Type 0 where
    over : Session [] []
    asks :
        (instruction_id : String) (c : Command) (cmd : GreeterCommand)
        (messages : Streaming CommandProviderInbound) (asked : List (String × GreeterCommand))
        → Asks codecs c cmd
        → Session messages asked
        → Session
            (item (record { instruction_id = instruction_id; request = some (command c) })
              ∷ messages)
            ((c.message_identifier, cmd) ∷ asked)
    acknowledges :
        (instruction_id : String) (messages : Streaming CommandProviderInbound)
        (asked : List (String × GreeterCommand))
        → Session messages asked
        → Session
            (item (record { instruction_id = instruction_id; request = some ack }) ∷ messages)
            asked
    pauses :
        (messages : Streaming CommandProviderInbound) (asked : List (String × GreeterCommand))
        → Session messages asked
        → Session (end_of_stream ∷ messages) asked

  -- An outcome that is a reply.
  abbrev pub Stands : Outcome (Option EmitEventsAndResponse) → Reply → Type 0
  Stands o reply =
      (x : Result (Option EmitEventsAndResponse)) × Replies codecs x reply × (captured x ≡ ok o)

  -- Results that are some replies, each under its identifier.
  abbrev pub Answered : List AxonCommandResult → List (String × Reply) → Type 0
  Answered [] [] = Unit
  Answered [] (reply ∷ rest) = ⊥
  Answered (r ∷ results) [] = ⊥
  Answered (r ∷ results) ((id, reply) ∷ rest) =
      (r.message_identifier ≡ id) × Stands r.result reply × Answered results rest
