-- ===== src/ExampleCommand/Outcomes.antt =====
-- What is stored and returned after each command handler of the greeter: src/example_command/mod.rs
-- over `store_events` of src/axon_utils/command_worker.rs.
use rusty_dendrite.Prelude.{
  String, ◌<>◌, ◌≡◌, refl, sym, subst, Bool, true, false, Option, some, List, [], ◌∷◌, ◌++◌,
  append-nil, inl, inr, Bool-cases, ◌==◌, eq_iff, arith, if◌then◌else◌,
}
use rusty_dendrite.Prelude.Int.{pos, ◌+i64◌}
use rusty_dendrite.Io.{Result, ok, err, message}
use rusty_dendrite.Messages.{Bytes}
use rusty_dendrite.Runtime.{Runtime}
use rusty_dendrite.EventStore.{Event, EventStoreClient}
use rusty_dendrite.EventStore.Laws.{IsEventStore, NumberedFrom, last_sequence_nr}
use rusty_dendrite.CommandWorker.Emit.{
  ApplicableTo, EmitApplicableEventsAndResponse, EmitEventsAndResponse,
}
use rusty_dendrite.CommandWorker.Store.Append.{store_events_one}
use rusty_dendrite.CommandWorker.Aggregate.{finish, store_result, wrapped_result}
use rusty_dendrite.ExampleCommand.{
  greeted as greeted_event, started as started_event, stopped as stopped_event, Codecs, Greeting,
  GreeterProjection, greeting_text, handle_greet_command, handle_record_command,
  handle_stop_command,
}
use rusty_dendrite.ExampleCommand.Setup.{greeter_definition}
use rusty_dendrite.ExampleCommand.Spec.{
  greet, start, stop, GreeterEvent, greeted, started, stopped, Reply, decide,
}
use rusty_dendrite.ExampleCommand.Carries.{AreCodecs, Represents, Carries, Replies, object}
use rusty_dendrite.ExampleCommand.Restore.{projection_of}
use rusty_dendrite.ExampleCommand.Handling.{after_handler}
use rusty_dendrite.ExampleCommand.Emits.{emitting, greet_emits, record_emits, stop_emits}

module _ (codecs : Codecs) (valid : AreCodecs codecs) {S : Type 0} (rt : Runtime S)
    (client : EventStoreClient S) (log : S → String → List Event)
    (store : IsEventStore rt client log) where
  -- A reply, and a store in which the greeter has just some more events, under the next numbers.
  abbrev pub Handled :
      S → Result (Option EmitEventsAndResponse) × S → Reply × List GreeterEvent → Type 0
  Handled s (r, s') (reply, events) =
      Replies codecs r reply
      × ((es : List Event) × Represents codecs es events
          × NumberedFrom "xxx" (last_sequence_nr (log s "xxx") +i64 pos 1) es
          × ((j : String) → log s' j ≡ (if "xxx" == j then log s "xxx" ++ es else log s j)))

  Handled-none :
      (s : S) (r : Result (Option EmitEventsAndResponse)) (reply : Reply)
      → Replies codecs r reply
      → Handled s (r, s) (reply, [])
  Handled-none s r reply h =
      (h, ([], tt, tt, λ j. ground (arith, eq_iff "xxx" j, append-nil (log s "xxx"))))

  -- One event and one response are stored and returned.
  finish_one :
      (s : S) (name : String) (event : ApplicableTo GreeterProjection) (buf : Bytes)
      (holder : EmitApplicableEventsAndResponse GreeterProjection)
      → holder.events ≡ (name, event) ∷ []
      → event.encode_u8 ≡ ok buf
      → (s' : S) × (e : Event) × (finish rt client (some "xxx") (some holder) s
          ≡ (ok (some (record { events = []; response = holder.response })), s'))
        × (e.payload ≡ some (object name buf))
        × NumberedFrom "xxx" (last_sequence_nr (log s "xxx") +i64 pos 1) (e ∷ [])
        × ((j : String) → log s' j ≡ (if "xxx" == j then log s "xxx" ++ e ∷ [] else log s j))
  unfolding finish store_result wrapped_result
  finish_one s name event buf holder one encodes =
      let (s', e, stored, payload, owner, number, grown) =
        store_events_one rt client log store "xxx" name event buf holder s one encodes in
      (s', e, rw stored refl, payload, (owner, number, tt), grown)

  Handled-one :
      (s : S) (name : String) (event : ApplicableTo GreeterProjection) (buf : Bytes)
      (holder : EmitApplicableEventsAndResponse GreeterProjection) (reply : Reply)
      (v : GreeterEvent)
      → holder.events ≡ (name, event) ∷ []
      → event.encode_u8 ≡ ok buf
      → ((e : Event) → e.payload ≡ some (object name buf) → Carries codecs e v)
      → Replies codecs (ok (some (record { events = []; response = holder.response }))) reply
      → Handled s
          (after_handler rt (greeter_definition codecs) client "xxx" (ok (some holder)) s)
          (reply, v ∷ [])
  Handled-one s name event buf holder reply v one encodes carries replies =
      let (s', e, finished, payload, numbered, grown) =
        finish_one s name event buf holder one encodes in
      subst (λ x. Handled s x (reply, v ∷ [])) (sym finished)
        (replies, (e ∷ [], (carries e payload, tt), numbered, grown))

  Handled-eq :
      (s : S) (r r' : Result (Option (EmitApplicableEventsAndResponse GreeterProjection)))
      (d d' : Reply × List GreeterEvent)
      → r ≡ r'
      → d ≡ d'
      → Handled s (after_handler rt (greeter_definition codecs) client "xxx" r' s) d'
      → Handled s (after_handler rt (greeter_definition codecs) client "xxx" r s) d
  Handled-eq s r r' d d' e e' h =
      subst (λ d. Handled s (after_handler rt (greeter_definition codecs) client "xxx" r s) d)
        (sym e')
        (subst (λ r. Handled s (after_handler rt (greeter_definition codecs) client "xxx" r s) d')
          (sym e) h)

  -- What is stored and returned after each handler.
  pub Handled-greet :
      (b : Bool) (id : String) (m : Option Greeting) (s : S)
      → Handled s
          (after_handler rt
            (greeter_definition codecs)
            client
            "xxx"
            (handle_greet_command codecs
              (record { aggregate_identifier = id; message = m })
              (projection_of b))
            s)
          (decide b (greet m))
  unfolding handle_greet_command decide finish store_result wrapped_result
  Handled-greet false id m s = Handled-none s _ Reply.nothing refl
  Handled-greet true id m s = elim (Bool-cases (greeting_text m == "ERROR")) [
    | inl error ↦
        Handled-eq s _ (err (message "Panicked at reading 'ERROR'")) _ (Reply.refused, [])
          (rw error refl) (rw error refl) (Handled-none s _ Reply.refused refl)
    | inr fine ↦
        let text = "ACK! " <> greeting_text m in
        let (ack, ack_encodes, _) = valid.acknowledgement (record { message = text }) in
        let (buf, encodes, decodes) = valid.greeted_event (record { message = m }) in
        let event = greeted_event codecs (record { message = m }) in
        Handled-eq s _ (ok (some (emitting "GreetedEvent" event "Acknowledgement" ack))) _
          (Reply.acknowledged text, greeted m ∷ []) (greet_emits codecs id m ack fine ack_encodes)
          (rw fine refl)
          (Handled-one s "GreetedEvent" event buf
            (emitting "GreetedEvent" event "Acknowledgement" ack) (Reply.acknowledged text)
            (greeted m) refl encodes (λ e carried. (buf, carried, decodes))
            (ack, ack_encodes, refl))
  ]

  pub Handled-start :
      (b : Bool) (id : String) (s : S)
      → Handled s
          (after_handler rt
            (greeter_definition codecs)
            client
            "xxx"
            (handle_record_command codecs (record { aggregate_identifier = id }) (projection_of b))
            s)
          (decide b start)
  unfolding handle_record_command decide finish store_result wrapped_result
  Handled-start true id s = Handled-none s _ Reply.nothing refl
  Handled-start false id s =
      let (ack, ack_encodes, _) = valid.empty tt in
      let (buf, encodes, decodes) = valid.started_recording_event (record {}) in
      let event = started_event codecs (record {}) in
      Handled-eq s _ (ok (some (emitting "StartedRecordingEvent" event "Empty" ack))) _
        (Reply.done, started ∷ []) (record_emits codecs id ack ack_encodes) refl
        (Handled-one s "StartedRecordingEvent" event buf
          (emitting "StartedRecordingEvent" event "Empty" ack) Reply.done started refl encodes
          (λ e carried. (buf, carried, decodes)) (ack, ack_encodes, refl))

  pub Handled-stop :
      (b : Bool) (id : String) (s : S)
      → Handled s
          (after_handler rt
            (greeter_definition codecs)
            client
            "xxx"
            (handle_stop_command codecs (record { aggregate_identifier = id }) (projection_of b))
            s)
          (decide b stop)
  unfolding handle_stop_command decide finish store_result wrapped_result
  Handled-stop false id s = Handled-none s _ Reply.nothing refl
  Handled-stop true id s =
      let (ack, ack_encodes, _) = valid.empty tt in
      let (buf, encodes, decodes) = valid.stopped_recording_event (record {}) in
      let event = stopped_event codecs (record {}) in
      Handled-eq s _ (ok (some (emitting "StoppedRecordingEvent" event "Empty" ack))) _
        (Reply.done, stopped ∷ []) (stop_emits codecs id ack ack_encodes) refl
        (Handled-one s "StoppedRecordingEvent" event buf
          (emitting "StoppedRecordingEvent" event "Empty" ack) Reply.done stopped refl encodes
          (λ e carried. (buf, carried, decodes)) (ack, ack_encodes, refl))
