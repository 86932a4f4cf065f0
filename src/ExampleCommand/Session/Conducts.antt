-- ===== src/ExampleCommand/Session/Conducts.antt =====
-- The command worker over the registry of the greeter conducts a session as the specification does
-- (`internal_handle_commands` of src/example_command/mod.rs).
use rusty_dendrite.Prelude.{String, ◌≡◌, refl, sym, subst, ap, true, Option, none, some, List, ◌∷◌}
use rusty_dendrite.Io.{Io, Result, ok, err, panicked, Outcome, captured, attempt}
use rusty_dendrite.Runtime.{Runtime, Streaming}
use rusty_dendrite.EventStore.{Event, EventStoreClient}
use rusty_dendrite.EventStore.Laws.{IsEventStore}
use rusty_dendrite.CommandWorker.Protocol.{Command, CommandProviderInbound}
use rusty_dendrite.CommandWorker.Emit.{EmitEventsAndResponse}
use rusty_dendrite.CommandWorker.Aggregate.{
  aggregate_handle, handle_command, create_aggregate_definition,
}
use rusty_dendrite.CommandWorker.Registry
use rusty_dendrite.HashMap
use rusty_dendrite.HashMap.{HashMap}
use rusty_dendrite.HandlerRegistry.{insert_with_output, empty_handler_registry}
use rusty_dendrite.CommandWorker.Registry.{
  find_aggregate, empty_aggregate_registry, registered, register, register_commands,
  register_command,
}
use rusty_dendrite.CommandWorker.Worker.{Run, run_worker}
use rusty_dendrite.CommandWorker.Worker.Steps.{
  command_worker-run_worker, run_worker-command, run_worker-nil, run_worker-ack,
  run_worker-end_of_stream,
}
use rusty_dendrite.ExampleCommand.{Codecs}
use rusty_dendrite.ExampleCommand.Setup.{
  greeter_registry, greeter_definition, internal_handle_commands-run, internal_handle_commands,
}
use rusty_dendrite.ExampleCommand.Spec.{
  GreeterCommand, greet, start, stop, GreeterEvent, Reply, acknowledged, done, nothing, refused,
  IsCoherent,
}
use rusty_dendrite.ExampleCommand.Carries.{AreCodecs, Represents, Asks, Replies}
use rusty_dendrite.ExampleCommand.Refinement.{handle_command_refines}
use rusty_dendrite.ExampleCommand.Session.{
  conduct, conduct-IsCoherent, Session, over, asks, acknowledges, pauses, Stands, Answered,
}

module _ (codecs : Codecs) where
  pub captured-Replies :
      (x : Result (Option EmitEventsAndResponse)) (reply : Reply)
      → Replies codecs x reply
      → (o : Outcome (Option EmitEventsAndResponse)) × (captured x ≡ ok o) × Stands codecs o reply
  captured-Replies (ok a) reply h = (_, refl, (ok a, h, refl))
  captured-Replies (err e) reply h = (_, refl, (err e, h, refl))
  captured-Replies panicked (acknowledged text) (buf, e, h) = absurd (cc)
  captured-Replies panicked done (buf, e, h) = absurd (cc)
  captured-Replies panicked nothing h = absurd (cc)
  captured-Replies panicked refused h = absurd (cc)

  module _ {S : Type 0} (rt : Runtime S) where
    abbrev pub Finds : String → Type 0
    Finds name =
        find_aggregate (greeter_registry codecs rt)
          (registered (greeter_registry codecs rt)).command_to_aggregate_mapping name
        ≡ some (aggregate_handle rt (greeter_definition codecs))

    -- The three commands are those of the greeter.
    Finds-greeter : Finds "GreetCommand" × Finds "RecordCommand" × Finds "StopCommand"
    unfolding find_aggregate registered greeter_registry aggregate_handle greeter_definition
        Registry.insert Registry.get register register_commands register_command HashMap.get
        HashMap.insert HashMap.keys HashMap.contains_key empty_aggregate_registry
        create_aggregate_definition insert_with_output empty_handler_registry
    Finds-greeter = (refl, refl, refl)

    pub Finds-Asks : (c : Command) (cmd : GreeterCommand) → Asks codecs c cmd → Finds c.name
    Finds-Asks c (greet m) h = subst Finds (sym h.0) Finds-greeter.0
    Finds-Asks c start h = subst Finds (sym h.0) Finds-greeter.1
    Finds-Asks c stop h = subst Finds (sym h.0) Finds-greeter.2

module _ (codecs : Codecs) (valid : AreCodecs codecs) {S : Type 0} (rt : Runtime S)
    (client : EventStoreClient S) (log : S → String → List Event)
    (store : IsEventStore rt client log) where
  -- How a run stands after a session.
  abbrev pub Conducted : Run S → List (String × Reply) × List GreeterEvent → Type 0
  Conducted r spec =
      (r.returned ≡ none)
      × Answered codecs r.sent spec.0
      × Represents codecs (log r.world "xxx") spec.1

  abbrev worker : Streaming CommandProviderInbound → S → Run S
  worker = run_worker (greeter_registry codecs rt) client

  Conducted-worker :
      {messages : Streaming CommandProviderInbound} {asked : List (String × GreeterCommand)}
      (vs : List GreeterEvent) (s : S)
      → Session codecs messages asked
      → Represents codecs (log s "xxx") vs
      → Conducted (worker messages s) (conduct vs asked)
  unfolding conduct attempt aggregate_handle
  Conducted-worker vs s over history =
      rw (run_worker-nil (greeter_registry codecs rt) client s) (refl, tt, history)
  Conducted-worker vs s (acknowledges instruction_id messages asked session) history =
      subst (λ r. Conducted r (conduct vs asked))
        (sym (run_worker-ack _ client messages s instruction_id))
        (Conducted-worker vs s session history)
  Conducted-worker vs s (pauses messages asked session) history =
      subst (λ r. Conducted r (conduct vs asked))
        (sym (run_worker-end_of_stream _ client messages s)) (Conducted-worker vs s session history)
  Conducted-worker vs s (asks instruction_id c cmd messages asked a session) history =
      let x = handle_command rt (greeter_definition codecs) c client s in
      let (replies, grown, others) =
        handle_command_refines codecs valid rt client log store c cmd vs s a history in
      let (o, caught, stands) = captured-Replies codecs x.0 _ replies in
      let (running, answered, kept) = Conducted-worker _ x.1 session grown in
      subst (λ r. Conducted r (conduct vs ((c.message_identifier, cmd) ∷ asked)))
        (sym (
          run_worker-command (greeter_registry codecs rt) client messages s instruction_id c
            (aggregate_handle rt (greeter_definition codecs)) o x.1 (Finds-Asks codecs rt c cmd a)
            (ap (λ r. (r, x.1)) caught)))
        (running, (refl, stands, answered), kept)

  -- Let the server keep its event store, and let every message encode and decode to itself. Let the
  -- store's events of the greeter stand for a history, and let the server open a stream on which it
  -- asks some commands of the greeter whose payloads decode. Then the command worker over the
  -- registry of the greeter still runs; it has sent one result for each command, in order and under
  -- the command's identifier, which is the reply that the specification gives in that place; and
  -- the store's events of the greeter stand for the history that the specification ends with.
  pub greeter_conducts :
      (open_stream : Io S (Streaming CommandProviderInbound))
      (messages : Streaming CommandProviderInbound) (asked : List (String × GreeterCommand))
      (vs : List GreeterEvent) (s s' : S)
      → open_stream s ≡ (ok messages, s')
      → Session codecs messages asked
      → Represents codecs (log s' "xxx") vs
      → let r = internal_handle_commands codecs rt client open_stream s in
        (r.returned ≡ none)
        × Answered codecs r.sent (conduct vs asked).0
        × Represents codecs (log r.world "xxx") (conduct vs asked).1
  greeter_conducts open_stream messages asked vs s s' opens session history =
      let (running, answered, kept) = Conducted-worker vs s' session history in
      rw
        (
          internal_handle_commands-run codecs rt client open_stream s,
          command_worker-run_worker (greeter_registry codecs rt) client open_stream messages s s'
              opens,
        )
        (rw running refl, answered, kept)

  -- Under the same conditions, if the history was coherent before such a session, then what the
  -- store stands for after it is coherent as well: the recorder was started only when it was off,
  -- and stopped or greeted only when it was on.
  pub greeter_history-IsCoherent :
      (open_stream : Io S (Streaming CommandProviderInbound))
      (messages : Streaming CommandProviderInbound) (asked : List (String × GreeterCommand))
      (vs : List GreeterEvent) (s s' : S)
      → open_stream s ≡ (ok messages, s')
      → Session codecs messages asked
      → Represents codecs (log s' "xxx") vs
      → IsCoherent true vs
      → (ws : List GreeterEvent) × Represents codecs
          (log (internal_handle_commands codecs rt client open_stream s).world "xxx")
          ws
        × IsCoherent true ws
  greeter_history-IsCoherent open_stream messages asked vs s s' opens session history coherent = (
    (conduct vs asked).1,
    (greeter_conducts open_stream messages asked vs s s' opens session history).2,
    conduct-IsCoherent vs asked coherent,
  )
