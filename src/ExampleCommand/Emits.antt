-- ===== src/ExampleCommand/Emits.antt =====
-- What the command handlers of the greeter emit (src/example_command/mod.rs).
use rusty_dendrite.Prelude.{String, ◌<>◌, ◌≡◌, refl, true, false, Option, some, [], ◌∷◌, ◌==◌}
use rusty_dendrite.Io.{ok}
use rusty_dendrite.Messages.{Bytes, axon_serialize}
use rusty_dendrite.CommandWorker.Emit.{
  ApplicableTo, EmitApplicableEventsAndResponse, emit_applicable,
  emit_applicable_events_and_response,
}
use rusty_dendrite.ExampleCommand.{
  greeted as greeted_event, started as started_event, stopped as stopped_event, Codecs, Greeting,
  GreeterProjection, greeting_text, handle_greet_command, handle_record_command,
  handle_stop_command,
}
use rusty_dendrite.ExampleCommand.Carries.{object}
use rusty_dendrite.ExampleCommand.Restore.{projection_of}

-- The results of the handlers that emit an event.
abbrev pub emitting :
    String
    → ApplicableTo GreeterProjection
    → String
    → Bytes
    → EmitApplicableEventsAndResponse GreeterProjection
emitting name event type_name buf = record {
  events = (name, event) ∷ [];
  response = some (object type_name buf);
}

module _ (codecs : Codecs) where
  pub greet_emits :
      (id : String) (m : Option Greeting) (buf : Bytes)
      → (greeting_text m == "ERROR") ≡ false
      → codecs.acknowledgement.encode (record { message = "ACK! " <> greeting_text m }) ≡ ok buf
      → handle_greet_command codecs
          (record { aggregate_identifier = id; message = m })
          (projection_of true)
        ≡ ok (
            some (
              emitting "GreetedEvent"
                (greeted_event codecs (record { message = m }))
                "Acknowledgement"
                buf))
  unfolding handle_greet_command emit_applicable_events_and_response axon_serialize emit_applicable
  greet_emits id m buf fine encodes = rw (fine, encodes) refl

  pub record_emits :
      (id : String) (buf : Bytes)
      → codecs.empty.encode tt ≡ ok buf
      → handle_record_command codecs (record { aggregate_identifier = id }) (projection_of false)
        ≡ ok
            (some (emitting "StartedRecordingEvent" (started_event codecs (record {})) "Empty" buf))
  unfolding handle_record_command emit_applicable_events_and_response axon_serialize emit_applicable
  record_emits id buf encodes = rw encodes refl

  pub stop_emits :
      (id : String) (buf : Bytes)
      → codecs.empty.encode tt ≡ ok buf
      → handle_stop_command codecs (record { aggregate_identifier = id }) (projection_of true)
        ≡ ok
            (some (emitting "StoppedRecordingEvent" (stopped_event codecs (record {})) "Empty" buf))
  unfolding handle_stop_command emit_applicable_events_and_response axon_serialize emit_applicable
  stop_emits id buf encodes = rw encodes refl
