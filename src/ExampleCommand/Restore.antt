-- ===== src/ExampleCommand/Restore.antt =====
-- The replay of the greeter's events (src/example_command/mod.rs, and the loop of `handle_command` in
-- src/axon_utils/command_worker.rs).
use rusty_dendrite.Prelude.{
  String, ◌≡◌, refl, ap, ◌∙◌, Bool, true, false, Option, some, List, [], ◌∷◌,
}
use rusty_dendrite.Io.{ok}
use rusty_dendrite.Messages.{Bytes}
use rusty_dendrite.Runtime.{Runtime}
use rusty_dendrite.HashMap
use rusty_dendrite.HandlerRegistry
use rusty_dendrite.HandlerRegistry.{empty_handler_registry}
use rusty_dendrite.EventStore.{Event, EventStoreClient}
use rusty_dendrite.EventStore.Query.{query_events-end_of_stream}
use rusty_dendrite.EventStore.Laws.{IsEventStore}
use rusty_dendrite.CommandWorker.Aggregate.{
  source_payload, keep_or, replay, restore, create_aggregate_definition,
}
use rusty_dendrite.ExampleCommand.{Codecs, Greeting, GreeterProjection, empty_projection}
use rusty_dendrite.ExampleCommand.Setup.{greeter_definition}
use rusty_dendrite.ExampleCommand.Spec.{
  GreeterEvent, greeted, started, stopped, recording, recording-cons,
}
use rusty_dendrite.ExampleCommand.Carries.{Represents, Carries, object}

abbrev pub projection_of : Bool → GreeterProjection
projection_of b = record { is_recording = b }

module _ (codecs : Codecs) {S : Type 0} where
  source-greeted :
      (b : Bool) (m : Option Greeting) (buf : Bytes) (s : S)
      → codecs.greeted_event.decode buf ≡ ok (record { message = m })
      → source_payload
          (greeter_definition codecs)
          (projection_of b)
          (some (object "GreetedEvent" buf))
          s
        ≡ (ok (projection_of b), s)
  unfolding source_payload keep_or greeter_definition create_aggregate_definition
      HandlerRegistry.get HandlerRegistry.insert_with_output empty_handler_registry HashMap.get
      HashMap.insert HashMap.contains_key
  source-greeted b m buf s e = rw e

  source-started :
      (b : Bool) (buf : Bytes) (s : S)
      → codecs.started_recording_event.decode buf ≡ ok (record {})
      → source_payload
          (greeter_definition codecs)
          (projection_of b)
          (some (object "StartedRecordingEvent" buf))
          s
        ≡ (ok (projection_of true), s)
  unfolding source_payload keep_or greeter_definition create_aggregate_definition
      HandlerRegistry.get HandlerRegistry.insert_with_output empty_handler_registry HashMap.get
      HashMap.insert HashMap.contains_key
  source-started b buf s e = rw e

  source-stopped :
      (b : Bool) (buf : Bytes) (s : S)
      → codecs.stopped_recording_event.decode buf ≡ ok (record {})
      → source_payload
          (greeter_definition codecs)
          (projection_of b)
          (some (object "StoppedRecordingEvent" buf))
          s
        ≡ (ok (projection_of false), s)
  unfolding source_payload keep_or greeter_definition create_aggregate_definition
      HandlerRegistry.get HandlerRegistry.insert_with_output empty_handler_registry HashMap.get
      HashMap.insert HashMap.contains_key
  source-stopped b buf s e = rw e

  source-Carries :
      (b : Bool) (e : Event) (v : GreeterEvent) (s : S)
      → Carries codecs e v
      → source_payload (greeter_definition codecs) (projection_of b) e.payload s
        ≡ (ok (projection_of (recording b (v ∷ []))), s)
  unfolding recording
  source-Carries b e (greeted m) s (buf, carried, decoded) =
      ap (λ p. source_payload (greeter_definition codecs) (projection_of b) p s) carried
      ∙ source-greeted b m buf s decoded
  source-Carries b e started s (buf, carried, decoded) =
      ap (λ p. source_payload (greeter_definition codecs) (projection_of b) p s) carried
      ∙ source-started b buf s decoded
  source-Carries b e stopped s (buf, carried, decoded) =
      ap (λ p. source_payload (greeter_definition codecs) (projection_of b) p s) carried
      ∙ source-stopped b buf s decoded

  replay-Represents :
      (b : Bool) (es : List Event) (vs : List GreeterEvent) (s : S)
      → Represents codecs es vs
      → replay (greeter_definition codecs) (projection_of b) es s
        ≡ (ok (projection_of (recording b vs)), s)
  unfolding replay recording
  replay-Represents b [] [] s h = refl
  replay-Represents b [] (v ∷ vs) s h = absurd h
  replay-Represents b (e ∷ es) [] s h = absurd h
  replay-Represents b (e ∷ es) (v ∷ vs) s (h, rest) = rw (source-Carries b e v s h) (
      replay-Represents (recording b (v ∷ [])) es vs s rest
      ∙ ap (λ (c : Bool). (ok (projection_of c), s)) (recording-cons b v vs))

  -- From a server that keeps its event store and whose events of the greeter stand for a history,
  -- the projection that is restored says whether the recorder is on after that history, and the
  -- world is as it was.
  pub restore-Represents :
      (rt : Runtime S) (client : EventStoreClient S) (log : S → String → List Event)
      (store : IsEventStore rt client log) (vs : List GreeterEvent) (s : S)
      → Represents codecs (log s "xxx") vs
      → restore (greeter_definition codecs) client (some "xxx") s
        ≡ (ok (projection_of (recording true vs)), s)
  unfolding restore
  restore-Represents rt client log store vs s h =
      rw (query_events-end_of_stream client "xxx" s s (log s "xxx") [] (store.lists "xxx" s)) (
        unfold greeter_definition create_aggregate_definition empty_projection in
        replay-Represents true (log s "xxx") vs s h)
