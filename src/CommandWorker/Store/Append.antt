-- ===== src/CommandWorker/Store/Append.antt =====
-- What `store_events` of src/axon_utils/command_worker.rs appends to the event store.
use rusty_dendrite.Prelude.{
  String, ◌≡◌, refl, sym, ap, ap₂, ◌∙◌, some, List, [], ◌∷◌, ◌++◌, ◌==◌, if◌then◌else◌,
}
use rusty_dendrite.Prelude.Int.{pos, ◌+i64◌, wrap_i64}
use rusty_dendrite.Io.{ok}
use rusty_dendrite.Messages.{Bytes}
use rusty_dendrite.Runtime.{Runtime, draw_uuid, timestamp_millis}
use rusty_dendrite.EventStore.{Event, EventStoreClient}
use rusty_dendrite.EventStore.Laws.{IsEventStore, last_sequence_nr}
use rusty_dendrite.CommandWorker.Emit.{ApplicableTo, EmitApplicableEventsAndResponse}
use rusty_dendrite.CommandWorker.Store.{event_message, event_messages, store_events}

module _ {S P : Type 0} (rt : Runtime S) (client : EventStoreClient S)
    (log : S → String → List Event) (store : IsEventStore rt client log) where
  -- With a server that keeps its event store, a command with one event that encodes appends one
  -- event of its aggregate with that payload to the events of the aggregate, under the next sequence
  -- number, and leaves the other aggregates alone.
  pub store_events_one :
      (id name : String) (event : ApplicableTo P) (buf : Bytes)
      (holder : EmitApplicableEventsAndResponse P) (s : S)
      → holder.events ≡ (name, event) ∷ []
      → event.encode_u8 ≡ ok buf
      → (s' : S) × (e : Event) × (store_events rt client id holder s ≡ (ok tt, s'))
        × (e.payload ≡ some (record { type = name; revision = ""; bytes = buf }))
        × (e.aggregate_identifier ≡ id)
        × (e.aggregate_sequence_number ≡ last_sequence_nr (log s id) +i64 pos 1)
        × ((j : String) → log s' j ≡ (if id == j then log s id ++ e ∷ [] else log s j))
  unfolding store_events event_messages event_message draw_uuid timestamp_millis
  store_events_one id name event buf holder s one encodes =
      let s₁ = (rt.new_v4 s).1 in
      let (millis, s₂, clock, same) = store.reads_clock s₁ in
      let same' : ((j : String) → log s₂ j ≡ log s j) = λ j. same j ∙ store.draws s j in
      let e : Event =
        event_message id (rt.new_v4 s).0 (wrap_i64 (pos millis)) (last_sequence_nr (log s id)) name
          buf in
      let (s', appended, grown) =
        store.appends id s₂ (e ∷ [])
          (refl, ap (λ es. last_sequence_nr es +i64 pos 1) (sym (same' id)), tt) in
      (
        s',
        e,
        rw (store.highest id s, clock, one, encodes, appended) refl,
        refl,
        refl,
        refl,
        λ j. grown j ∙ ap₂ (λ a b. if id == j then a ++ e ∷ [] else b) (same' id) (same' j),
      )
