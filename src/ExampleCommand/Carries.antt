-- ===== src/ExampleCommand/Carries.antt =====
-- How payloads stand for the commands, events and replies of the greeter
-- (src/example_command/mod.rs).
use rusty_dendrite.Prelude.{
  suc, refl, ap, length, String, ◌≡◌, Option, none, some, List, [], ◌∷◌, ◌++◌,
}
use rusty_dendrite.Io.{Result, ok, err, message}
use rusty_dendrite.Messages.{Bytes, SerializedObject, Codec}
use rusty_dendrite.EventStore.{Event}
use rusty_dendrite.CommandWorker.Protocol.{Command}
use rusty_dendrite.CommandWorker.Emit.{EmitEventsAndResponse}
use rusty_dendrite.ExampleCommand.{Codecs}
use rusty_dendrite.ExampleCommand.Spec.{
  GreeterCommand, greet, start, stop, GreeterEvent, greeted, started, stopped, Reply, acknowledged,
  done, nothing, refused,
}

-- What prost promises: a message encodes, and its encoding decodes to it.
abbrev pub Codes : {T : Type 0} → Codec T → T → Type 0
Codes codec t = (buf : Bytes) × (codec.encode t ≡ ok buf) × (codec.decode buf ≡ ok t)

abbrev pub IsCodec : {T : Type 0} → Codec T → Type 0
IsCodec {T} codec = (t : T) → Codes codec t

pub record AreCodecs (codecs : Codecs) : Type 0 where
  pub acknowledgement : IsCodec codecs.acknowledgement
  pub empty : IsCodec codecs.empty
  pub greeted_event : IsCodec codecs.greeted_event
  pub started_recording_event : IsCodec codecs.started_recording_event
  pub stopped_recording_event : IsCodec codecs.stopped_recording_event

abbrev pub object : String → Bytes → SerializedObject
object type_name buf = record { type = type_name; revision = ""; bytes = buf }

module _ (codecs : Codecs) where
  abbrev pub Carries : Event → GreeterEvent → Type 0
  Carries e (greeted m) =
      (buf : Bytes) × (e.payload ≡ some (object "GreetedEvent" buf))
      × (codecs.greeted_event.decode buf ≡ ok (record { message = m }))
  Carries e started =
      (buf : Bytes) × (e.payload ≡ some (object "StartedRecordingEvent" buf))
      × (codecs.started_recording_event.decode buf ≡ ok (record {}))
  Carries e stopped =
      (buf : Bytes) × (e.payload ≡ some (object "StoppedRecordingEvent" buf))
      × (codecs.stopped_recording_event.decode buf ≡ ok (record {}))

  -- Stored events that stand for a history.
  abbrev pub Represents : List Event → List GreeterEvent → Type 0
  Represents [] [] = Unit
  Represents [] (v ∷ vs) = ⊥
  Represents (e ∷ es) [] = ⊥
  Represents (e ∷ es) (v ∷ vs) = Carries e v × Represents es vs

  abbrev pub Asks : Command → GreeterCommand → Type 0
  Asks c (greet m) =
      (c.name ≡ "GreetCommand")
      × ((p : SerializedObject) × (c.payload ≡ some p)
          × ((id : String) × (codecs.greet_command.decode p.bytes
                ≡ ok (record { aggregate_identifier = id; message = m }))))
  Asks c start =
      (c.name ≡ "RecordCommand")
      × ((p : SerializedObject) × (c.payload ≡ some p)
          × ((id : String) × (codecs.record_command.decode p.bytes
                ≡ ok (record { aggregate_identifier = id }))))
  Asks c stop =
      (c.name ≡ "StopCommand")
      × ((p : SerializedObject) × (c.payload ≡ some p)
          × ((id : String) × (codecs.stop_command.decode p.bytes
                ≡ ok (record { aggregate_identifier = id }))))

  abbrev pub Replies : Result (Option EmitEventsAndResponse) → Reply → Type 0
  Replies r (acknowledged text) =
      (buf : Bytes) × (codecs.acknowledgement.encode (record { message = text }) ≡ ok buf)
      × (r ≡ ok (some (record { events = []; response = some (object "Acknowledgement" buf) })))
  Replies r done =
      (buf : Bytes) × (codecs.empty.encode tt ≡ ok buf)
      × (r ≡ ok (some (record { events = []; response = some (object "Empty" buf) })))
  Replies r nothing = r ≡ ok none
  Replies r refused = r ≡ err (message "Panicked at reading 'ERROR'")

  pub Represents-append :
      (es fs : List Event) (vs ws : List GreeterEvent)
      → Represents es vs
      → Represents fs ws
      → Represents (es ++ fs) (vs ++ ws)
  Represents-append [] fs [] ws h k = k
  Represents-append [] fs (v ∷ vs) ws h k = absurd h
  Represents-append (e ∷ es) fs [] ws h k = absurd h
  Represents-append (e ∷ es) fs (v ∷ vs) ws h k = (h.0, Represents-append es fs vs ws h.1 k)

  pub length-Represents :
      (es : List Event) (vs : List GreeterEvent) → Represents es vs → length es ≡ length vs
  length-Represents [] [] h = refl
  length-Represents [] (v ∷ vs) h = absurd h
  length-Represents (e ∷ es) [] h = absurd h
  length-Represents (e ∷ es) (v ∷ vs) h = ap suc (length-Represents es vs h.1)
