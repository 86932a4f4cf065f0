-- ===== src/ExampleCommand/Refinement.antt =====
-- The command handling of the greeter against its specification: src/example_command/mod.rs over
-- `handle_command` of src/axon_utils/command_worker.rs.
use rusty_dendrite.Prelude.{
  String, ◌≡◌, refl, sym, subst, ap₂, ◌∙◌, map_option, true, false, Option, some, List, ◌++◌, ◌==◌,
}
use rusty_dendrite.Io.{about, lift, ok_or, ◌>>=◌}
use rusty_dendrite.Messages.{SerializedObject}
use rusty_dendrite.Runtime.{Runtime}
use rusty_dendrite.EventStore.{Event, EventStoreClient}
use rusty_dendrite.EventStore.Laws.{IsEventStore}
use rusty_dendrite.CommandWorker.Protocol.{Command}
use rusty_dendrite.CommandWorker.Aggregate.{handle_payload, handle_command}
use rusty_dendrite.ExampleCommand.{Codecs}
use rusty_dendrite.ExampleCommand.Setup.{greeter_definition}
use rusty_dendrite.ExampleCommand.Spec.{
  GreeterCommand, greet, start, stop, GreeterEvent, decide, recording,
}
use rusty_dendrite.ExampleCommand.Carries.{AreCodecs, Represents, Represents-append, Asks, Replies}
use rusty_dendrite.ExampleCommand.Outcomes.{Handled, Handled-greet, Handled-start, Handled-stop}
use rusty_dendrite.ExampleCommand.Restore.{projection_of, restore-Represents}
use rusty_dendrite.ExampleCommand.Handling.{
  handle_payload-eq, extract-greet, run-greet, extract-record, run-record, extract-stop, run-stop,
}

module _ (codecs : Codecs) (valid : AreCodecs codecs) {S : Type 0} (rt : Runtime S)
    (client : EventStoreClient S) (log : S → String → List Event)
    (store : IsEventStore rt client log) where
  -- `handle_command` on a command whose name and payload are known.
  handle_command-eq :
      (c : Command) (name : String) (p : SerializedObject) (s : S)
      → c.name ≡ name
      → c.payload ≡ some p
      → handle_command rt (greeter_definition codecs) c client s
        ≡ handle_payload rt (greeter_definition codecs) name p.bytes client s
  unfolding handle_command
  handle_command-eq c name p s e e' =
      ap₂
        (λ (n : String) (o : Option SerializedObject).
          (do
            bytes ← lift (ok_or (map_option (λ q. q.bytes) o) (about "No payload data for: " n))
            handle_payload rt (greeter_definition codecs) n bytes client)
            s)
        e e'

  pub Handled-command :
      (c : Command) (cmd : GreeterCommand) (vs : List GreeterEvent) (s : S)
      → Asks codecs c cmd
      → Represents codecs (log s "xxx") vs
      → Handled codecs valid rt client log store s
          (handle_command rt (greeter_definition codecs) c client s)
          (decide (recording true vs) cmd)
  Handled-command c (greet m) vs s (named, (p, carried, (id, decoded))) history =
      let b = recording true vs in
      let (h, found, ran) = run-greet codecs p.bytes _ (projection_of b) s _ decoded refl in
      subst (λ x. Handled codecs valid rt client log store s x (decide b (greet m)))
        (sym (
          handle_command-eq c "GreetCommand" p s named carried
          ∙ handle_payload-eq rt (greeter_definition codecs) client "GreetCommand" "xxx" p.bytes s h
              (projection_of b) _ (extract-greet codecs p.bytes _ s decoded) found
              (restore-Represents codecs rt client log store vs s history) ran))
        (Handled-greet codecs valid rt client log store b id m s)
  Handled-command c start vs s (named, (p, carried, (id, decoded))) history =
      let b = recording true vs in
      let (h, found, ran) = run-record codecs p.bytes _ (projection_of b) s _ decoded refl in
      subst (λ x. Handled codecs valid rt client log store s x (decide b start))
        (sym (
          handle_command-eq c "RecordCommand" p s named carried
          ∙ handle_payload-eq rt (greeter_definition codecs) client "RecordCommand" "xxx" p.bytes s
              h (projection_of b) _ (extract-record codecs p.bytes _ s decoded) found
              (restore-Represents codecs rt client log store vs s history) ran))
        (Handled-start codecs valid rt client log store b id s)
  Handled-command c stop vs s (named, (p, carried, (id, decoded))) history =
      let b = recording true vs in
      let (h, found, ran) = run-stop codecs p.bytes _ (projection_of b) s _ decoded refl in
      subst (λ x. Handled codecs valid rt client log store s x (decide b stop))
        (sym (
          handle_command-eq c "StopCommand" p s named carried
          ∙ handle_payload-eq rt (greeter_definition codecs) client "StopCommand" "xxx" p.bytes s h
              (projection_of b) _ (extract-stop codecs p.bytes _ s decoded) found
              (restore-Represents codecs rt client log store vs s history) ran))
        (Handled-stop codecs valid rt client log store b id s)

  -- Let the server keep its event store, and let every message encode and decode to itself. Let the
  -- store's events of the greeter stand for a history, and let a command reach it with a payload
  -- that decodes. Then `handle_command` gives the reply that the specification gives after that
  -- history; it appends to the store just events that stand for those of the specification, so that
  -- the store stands for the extended history; and it leaves the events of every other aggregate as
  -- they were.
  pub handle_command_refines :
      (c : Command) (cmd : GreeterCommand) (vs : List GreeterEvent) (s : S)
      → Asks codecs c cmd
      → Represents codecs (log s "xxx") vs
      → let x = handle_command rt (greeter_definition codecs) c client s in
        let d = decide (recording true vs) cmd in
        Replies codecs x.0 d.0
        × Represents codecs (log x.1 "xxx") (vs ++ d.1)
        × ((j : String) → ("xxx" == j) ≡ false → log x.1 j ≡ log s j)
  handle_command_refines c cmd vs s asks history =
      let (replies, (es, stands, numbered, grown)) = Handled-command c cmd vs s asks history in
      (
        replies,
        subst (λ l. Represents codecs l (vs ++ (decide (recording true vs) cmd).1))
            (sym (grown "xxx")) (Represents-append codecs (log s "xxx") es vs _ history stands),
        λ j other. grown j ∙ rw other refl,
      )
