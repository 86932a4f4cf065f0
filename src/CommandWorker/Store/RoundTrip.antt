-- ===== src/CommandWorker/Store/RoundTrip.antt =====
-- What `store_events` of src/axon_utils/command_worker.rs stores, `query_events_from_client` of
-- src/axon_utils/event_query.rs reads.
use rusty_dendrite.Prelude.{String, ◌≡◌, ap, ◌∙◌, false, some, List, [], ◌∷◌, ◌++◌, ◌==◌, eq_refl}
use rusty_dendrite.Io.{ok}
use rusty_dendrite.Messages.{Bytes, Codec}
use rusty_dendrite.Runtime.{Runtime}
use rusty_dendrite.EventStore.{Event, EventStoreClient, query_events_from_client}
use rusty_dendrite.EventStore.Laws.{IsEventStore}
use rusty_dendrite.EventStore.Query.{query_events-end_of_stream}
use rusty_dendrite.CommandWorker.Emit.{ApplicableTo, EmitApplicableEventsAndResponse}
use rusty_dendrite.CommandWorker.Store.{store_events}
use rusty_dendrite.CommandWorker.Store.Append.{store_events_one}

module _ {S : Type 0} (rt : Runtime S) (client : EventStoreClient S) (log : S → String → List Event)
    (store : IsEventStore rt client log) where
  queried : (id : String) (s : S) → query_events_from_client client id s ≡ (ok (log s id), s)
  queried id s = query_events-end_of_stream client id s s (log s id) [] (store.lists id s)

  -- Let the server keep its event store, and let a query of an aggregate and one of another aggregate
  -- give some events. When then one event is stored for the first aggregate, whose encoding is that of
  -- a value that decodes to itself, a query of it gives the same events and one more behind them,
  -- whose payload is under the type name of the event and decodes to the value; and a query of the
  -- other aggregate gives what it gave.
  pub query_events-store_events :
      {P T : Type 0} (codec : Codec T) (t : T) (id other name : String) (event : ApplicableTo P)
      (buf : Bytes) (holder : EmitApplicableEventsAndResponse P) (es fs : List Event) (s : S)
      → holder.events ≡ (name, event) ∷ []
      → event.encode_u8 ≡ ok buf
      → codec.decode buf ≡ ok t
      → (id == other) ≡ false
      → query_events_from_client client id s ≡ (ok es, s)
      → query_events_from_client client other s ≡ (ok fs, s)
      → let s' = (store_events rt client id holder s).1 in
        (e : Event) × (query_events_from_client client id s' ≡ (ok (es ++ e ∷ []), s'))
        × ((payload : Bytes) × (e.payload
              ≡ some (record { type = name; revision = ""; bytes = payload }))
            × (codec.decode payload ≡ ok t))
        × (query_events_from_client client other s' ≡ (ok fs, s'))
  query_events-store_events codec t id other name event buf holder es fs s one encodes decodes apart
        before before' =
      let (s', e, stored, payload, owner, number, grown) =
        store_events_one rt client log store id name event buf holder s one encodes in
      let same : log s id ≡ es = cc (queried id s, before) in
      let same' : log s other ≡ fs = cc (queried other s, before') in
      let here : log s' id ≡ es ++ e ∷ [] =
        grown id ∙ rw (eq_refl id) (ap (λ l. l ++ e ∷ []) same) in
      let there : log s' other ≡ fs = grown other ∙ rw apart same' in
      rw stored (
        e,
        queried id s' ∙ ap (λ l. (ok l, s')) here,
        (buf, payload, decodes),
        queried other s' ∙ ap (λ l. (ok l, s')) there,
      )
