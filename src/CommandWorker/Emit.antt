-- ===== src/CommandWorker/Emit.antt =====
-- The events and the response of a command handler (src/axon_utils/command_worker.rs), and the
-- trait `ApplicableTo` of src/axon_utils/mod.rs.
use rusty_dendrite.Prelude.{String, Option, none, some, List, [], ◌∷◌, ◌++◌}
use rusty_dendrite.Io.{Result, ok, err, panicked}
use rusty_dendrite.Messages.{Bytes, SerializedObject, Codec, axon_serialize}

-- A boxed `ApplicableTo<P>`; `apply_to` returns the projection that it has changed.
pub record ApplicableTo (P : Type 0) : Type 0 where
  pub encode_u8 : Result Bytes
  pub apply_to : P → Result P

pub record EmitEventsAndResponse : Type 0 where
  pub events : List SerializedObject
  pub response : Option SerializedObject

pub record EmitApplicableEventsAndResponse (P : Type 0) : Type 0 where
  pub events : List (String × ApplicableTo P)
  pub response : Option SerializedObject

unfoldable pub emit_events : EmitEventsAndResponse
emit_events = record { events = []; response = none }

with_response : Result SerializedObject → Result EmitEventsAndResponse
with_response (ok payload) = ok (record { events = []; response = some payload })
with_response (err e) = err e
with_response panicked = panicked

with_payload : EmitEventsAndResponse → Result SerializedObject → Result EmitEventsAndResponse
with_payload holder (ok payload) = ok (record holder { events = holder.events ++ payload ∷ [] })
with_payload holder (err e) = err e
with_payload holder panicked = panicked

with_applicable_response :
    {P : Type 0} → Result SerializedObject → Result (EmitApplicableEventsAndResponse P)
with_applicable_response (ok payload) = ok (record { events = []; response = some payload })
with_applicable_response (err e) = err e
with_applicable_response panicked = panicked

module _ {T : Type 0} (codec : Codec T) where
  unfoldable pub emit_events_and_response : String → T → Result EmitEventsAndResponse
  unfolding with_response
  emit_events_and_response type_name response =
      with_response (axon_serialize codec type_name response)

  unfoldable pub emit : EmitEventsAndResponse → String → T → Result EmitEventsAndResponse
  unfolding with_payload
  emit holder type_name event = with_payload holder (axon_serialize codec type_name event)

unfoldable pub emit_applicable_events_and_response :
    {T P : Type 0} → Codec T → String → T → Result (EmitApplicableEventsAndResponse P)
unfolding with_applicable_response
emit_applicable_events_and_response codec type_name response =
    with_applicable_response (axon_serialize codec type_name response)

-- It never fails.
unfoldable pub emit_applicable :
    {P : Type 0}
    → EmitApplicableEventsAndResponse P
    → String
    → ApplicableTo P
    → EmitApplicableEventsAndResponse P
emit_applicable holder type_name event = record holder {
  events = holder.events ++ (type_name, event) ∷ [];
}
