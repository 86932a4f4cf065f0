-- ===== src/ExampleCommand/Session/Numbering.antt =====
-- The sequence numbers of the greeter's events over a session (`internal_handle_commands` of
-- src/example_command/mod.rs, `store_events` of src/axon_utils/command_worker.rs).
use rusty_dendrite.Prelude.{
  ℕ, ◌≤◌, ◌^◌, length, arith, String, ◌≡◌, sym, subst, ap, true, List, ◌++◌,
}
use rusty_dendrite.Io.{Io, ok, attempt}
use rusty_dendrite.Runtime.{Runtime, Streaming}
use rusty_dendrite.EventStore.{Event, EventStoreClient}
use rusty_dendrite.EventStore.Laws.{IsEventStore}
use rusty_dendrite.EventStore.Numbers.{
  IsNumbered, IsNumbered-append, numbers, counted, numbers-IsNumbered,
}
use rusty_dendrite.CommandWorker.Protocol.{Command, CommandProviderInbound}
use rusty_dendrite.CommandWorker.Aggregate.{aggregate_handle, handle_command}
use rusty_dendrite.CommandWorker.Worker.{run_worker}
use rusty_dendrite.CommandWorker.Worker.Steps.{
  command_worker-run_worker, run_worker-command, run_worker-nil, run_worker-ack,
  run_worker-end_of_stream,
}
use rusty_dendrite.ExampleCommand.{Codecs}
use rusty_dendrite.ExampleCommand.Setup.{
  greeter_registry, greeter_definition, internal_handle_commands-run, internal_handle_commands,
}
use rusty_dendrite.ExampleCommand.Spec.{GreeterCommand, GreeterEvent, decide, recording}
use rusty_dendrite.ExampleCommand.Carries.{AreCodecs, Represents, length-Represents, Asks}
use rusty_dendrite.ExampleCommand.Refinement.{handle_command_refines, Handled-command}
use rusty_dendrite.ExampleCommand.Session.{conduct, Session, over, asks, acknowledges, pauses}
use rusty_dendrite.ExampleCommand.Session.Conducts.{captured-Replies, Finds-Asks, greeter_conducts}

module _ (codecs : Codecs) (valid : AreCodecs codecs) {S : Type 0} (rt : Runtime S)
    (client : EventStoreClient S) (log : S → String → List Event)
    (store : IsEventStore rt client log) where
  abbrev Numbered : S → Type 0
  Numbered s = IsNumbered "xxx" (log s "xxx")

  -- One command adds its events under the numbers that follow.
  Numbered-handle_command :
      (c : Command) (cmd : GreeterCommand) (vs : List GreeterEvent) (s : S)
      → Asks codecs c cmd
      → Represents codecs (log s "xxx") vs
      → Numbered s
      → Numbered (handle_command rt (greeter_definition codecs) c client s).1
  Numbered-handle_command c cmd vs s asked history h =
      let (replies, (es, stands, numbered, grown)) =
        Handled-command codecs valid rt client log store c cmd vs s asked history in
      subst (IsNumbered "xxx") (sym (grown "xxx"))
        (IsNumbered-append "xxx" (log s "xxx") es h numbered)

  module _ (P : S → Type 0)
      (keep : (c : Command) (cmd : GreeterCommand) (vs : List GreeterEvent) (s : S)
        → Asks codecs c cmd
        → Represents codecs (log s "xxx") vs
        → P s
        → P (handle_command rt (greeter_definition codecs) c client s).1) where
    -- What every command of the greeter keeps, a session keeps.
    run_worker-keeps :
        {messages : Streaming CommandProviderInbound} {asked : List (String × GreeterCommand)}
        (vs : List GreeterEvent) (s : S)
        → Session codecs messages asked
        → Represents codecs (log s "xxx") vs
        → P s
        → P (run_worker (greeter_registry codecs rt) client messages s).world
    unfolding aggregate_handle
    run_worker-keeps vs s over history h =
        rw (run_worker-nil (greeter_registry codecs rt) client s) h
    run_worker-keeps vs s (acknowledges instruction_id messages asked session) history h =
        rw (run_worker-ack (greeter_registry codecs rt) client messages s instruction_id)
          (run_worker-keeps vs s session history h)
    run_worker-keeps vs s (pauses messages asked session) history h =
        rw (run_worker-end_of_stream (greeter_registry codecs rt) client messages s)
          (run_worker-keeps vs s session history h)
    run_worker-keeps vs s (asks instruction_id c cmd messages asked a session) history h =
        let x = handle_command rt (greeter_definition codecs) c client s in
        let (replies, grown, others) =
          handle_command_refines codecs valid rt client log store c cmd vs s a history in
        let (o, caught, stands) = captured-Replies codecs x.0 _ replies in
        rw
          (run_worker-command (greeter_registry codecs rt) client messages s instruction_id c
            (aggregate_handle rt (greeter_definition codecs)) o x.1 (Finds-Asks codecs rt c cmd a)
            (unfold attempt in ap (λ r. (r, x.1)) caught))
          (run_worker-keeps (vs ++ (decide (recording true vs) cmd).1) x.1 session grown
            (keep c cmd vs s a history h))

  -- Let the server keep its event store, let every message encode and decode to itself, and let the
  -- store's events of the greeter stand for a history and be numbered from zero without a gap. Let
  -- the server open a stream on which it asks some commands of the greeter whose payloads decode,
  -- and let the history that the specification ends with have at most 2^63 events. Then the numbers
  -- of the greeter's events after the session are 0, 1, 2 and so on, one for each event of that
  -- history: no number is given twice or left out, and none wraps around.
  pub greeter_sequence_numbers :
      (open_stream : Io S (Streaming CommandProviderInbound))
      (messages : Streaming CommandProviderInbound) (asked : List (String × GreeterCommand))
      (vs : List GreeterEvent) (s s' : S)
      → open_stream s ≡ (ok messages, s')
      → Session codecs messages asked
      → Represents codecs (log s' "xxx") vs
      → IsNumbered "xxx" (log s' "xxx")
      → length (conduct vs asked).1 ≤ 2 ^ 63
      → let r = internal_handle_commands codecs rt client open_stream s in
        numbers (log r.world "xxx") ≡ counted 0 (length (conduct vs asked).1)
  greeter_sequence_numbers open_stream messages asked vs s s' opens session history h fits =
      let es = log (internal_handle_commands codecs rt client open_stream s).world "xxx" in
      let kept = run_worker-keeps Numbered Numbered-handle_command vs s' session history h in
      let numbered : IsNumbered "xxx" es =
        rw
          (
            internal_handle_commands-run codecs rt client open_stream s,
            command_worker-run_worker (greeter_registry codecs rt) client open_stream messages s s'
                opens,
          )
          kept in
      let same =
        length-Represents codecs es (conduct vs asked).1
          (greeter_conducts codecs valid rt client log store open_stream messages asked vs s s'
            opens session history).2 in
      subst (λ (n : ℕ). numbers es ≡ counted 0 n) same
        (numbers-IsNumbered "xxx" es numbered (omega (arith, fits, same)))
