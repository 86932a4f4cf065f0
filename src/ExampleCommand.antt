-- ===== src/ExampleCommand.antt =====
-- src/example_command/mod.rs: the greeter aggregate, its events and its three command handlers, over
-- the messages of proto/grpc_example.proto.
pub mod Setup
pub mod Spec
pub mod Carries
pub mod Restore
pub mod Handling
pub mod Emits
pub mod Outcomes
pub mod Refinement
pub mod Session
mod Tests
use rusty_dendrite.Prelude.{
  String, ◌<>◌, Bool, true, false, not, Option, none, some, ◌==◌, if◌then◌else◌,
}
use rusty_dendrite.Io.{Result, ok, err, panicked, message}
use rusty_dendrite.Messages.{Codec}
use rusty_dendrite.CommandWorker.Emit.{
  ApplicableTo, EmitApplicableEventsAndResponse, emit_applicable,
  emit_applicable_events_and_response,
}

pub record Greeting : Type 0 where
  pub message : String

pub record Acknowledgement : Type 0 where
  pub message : String

pub record GreetCommand : Type 0 where
  pub aggregate_identifier : String
  pub message : Option Greeting

pub record RecordCommand : Type 0 where
  pub aggregate_identifier : String

pub record StopCommand : Type 0 where
  pub aggregate_identifier : String

pub record GreetedEvent : Type 0 where
  pub message : Option Greeting

pub record StartedRecordingEvent : Type 0 where

pub record StoppedRecordingEvent : Type 0 where

pub record GreeterProjection : Type 0 where
  pub is_recording : Bool

-- The generated encodings.
pub record Codecs : Type 0 where
  pub acknowledgement : Codec Acknowledgement
  pub empty : Codec (Unit {0})
  pub greet_command : Codec GreetCommand
  pub record_command : Codec RecordCommand
  pub stop_command : Codec StopCommand
  pub greeted_event : Codec GreetedEvent
  pub started_recording_event : Codec StartedRecordingEvent
  pub stopped_recording_event : Codec StoppedRecordingEvent

-- `emit_events?`, one more event, and `Ok(Some(emit_events))`.
emit_one :
    {P : Type 0}
    → Result (EmitApplicableEventsAndResponse P)
    → String
    → ApplicableTo P
    → Result (Option (EmitApplicableEventsAndResponse P))
emit_one (ok holder) type_name event = ok (some (emit_applicable holder type_name event))
emit_one (err e) type_name event = err e
emit_one panicked type_name event = panicked

-- `projection.clone()`, `event.apply_to(&mut p)?`, `Ok(Some(p))`.
handle_sourcing_event : {P : Type 0} → ApplicableTo P → P → Result (Option P)
handle_sourcing_event event projection = elim (event.apply_to projection) [
  | ok p ↦ ok (some p)
  | err e ↦ err e
  | panicked ↦ panicked
]

abbrev pub fixed_aggregate_id : Option String
fixed_aggregate_id = some "xxx"

unfoldable pub greeting_text : Option Greeting → String
greeting_text none = "-/-"
greeting_text (some greeting) = greeting.message

unfoldable pub empty_projection : GreeterProjection
empty_projection = record { is_recording = true }

module _ (codecs : Codecs) where
  pub greeted : GreetedEvent → ApplicableTo GreeterProjection
  greeted event = record {
    encode_u8 = codecs.greeted_event.encode event;
    apply_to = λ projection. ok projection;
  }

  pub started : StartedRecordingEvent → ApplicableTo GreeterProjection
  started event = record {
    encode_u8 = codecs.started_recording_event.encode event;
    apply_to = λ projection. ok (record projection { is_recording = true });
  }

  pub stopped : StoppedRecordingEvent → ApplicableTo GreeterProjection
  stopped event = record {
    encode_u8 = codecs.stopped_recording_event.encode event;
    apply_to = λ projection. ok (record projection { is_recording = false });
  }

  unfoldable pub handle_greet_command :
      GreetCommand
      → GreeterProjection
      → Result (Option (EmitApplicableEventsAndResponse GreeterProjection))
  unfolding greeting_text emit_one greeted
  handle_greet_command command projection =
      if not projection.is_recording
      then ok none
      else if greeting_text command.message == "ERROR"
      then err (message "Panicked at reading 'ERROR'")
      else emit_one
          (emit_applicable_events_and_response codecs.acknowledgement "Acknowledgement"
            (record { message = "ACK! " <> greeting_text command.message }))
          "GreetedEvent" (greeted (record { message = command.message }))

  unfoldable pub handle_record_command :
      RecordCommand
      → GreeterProjection
      → Result (Option (EmitApplicableEventsAndResponse GreeterProjection))
  unfolding emit_one started
  handle_record_command command projection =
      if projection.is_recording
      then ok none
      else emit_one (emit_applicable_events_and_response codecs.empty "Empty" tt)
          "StartedRecordingEvent" (started (record {}))

  unfoldable pub handle_stop_command :
      StopCommand
      → GreeterProjection
      → Result (Option (EmitApplicableEventsAndResponse GreeterProjection))
  unfolding emit_one stopped
  handle_stop_command command projection =
      if not projection.is_recording
      then ok none
      else emit_one (emit_applicable_events_and_response codecs.empty "Empty" tt)
          "StoppedRecordingEvent" (stopped (record {}))
