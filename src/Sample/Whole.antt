-- ===== src/Sample/Whole.antt =====
-- A world for the tests that has both an event store and documents, with a server that streams the
-- stored events.
use rusty_dendrite.Prelude.{String, ◌≡◌, refl, ap, List}
use rusty_dendrite.Prelude.Int.{ℤ}
use rusty_dendrite.Io.{Io, ok}
use rusty_dendrite.Json.{Value, Values, no_values, value_and}
use rusty_dendrite.ExampleQuery
use rusty_dendrite.ExampleQuery.Hits.{AreDocuments, Searches}
use rusty_dendrite.Runtime.{Runtime}
use rusty_dendrite.EventStore.{Event, EventStoreClient, aggregate_events_request}
use rusty_dendrite.EventStore.Laws.{IsEventStore}
use rusty_dendrite.EventProcessor.{Events}
use rusty_dendrite.ExampleEvent.{Elasticsearch}
use rusty_dendrite.ExampleEvent.Resumes.{KeepsDocuments}
use rusty_dendrite.Main.Acknowledged.{streamed}
use rusty_dendrite.Sample.World.{
  World, sample_log, sample_runtime, sample_client, sample-IsEventStore,
}
use rusty_dendrite.Sample.Documents.{
  Documents, document, indexer, indexer-KeepsDocuments, searcher, sample_matches, searcher-Searches,
}

pub record Whole : Type 0 where
  pub world : World
  pub documents : Documents

abbrev on_world : {A : Type 0} → Io World A → Io Whole A
on_world m s = ((m s.world).0, record s { world = (m s.world).1 })

abbrev on_documents : {A : Type 0} → Io Documents A → Io Whole A
on_documents m s = ((m s.documents).0, record s { documents = (m s.documents).1 })

abbrev pub whole_runtime : Runtime Whole
whole_runtime = record {
  new_v4 = λ s.
      ((sample_runtime.new_v4 s.world).0, record s { world = (sample_runtime.new_v4 s.world).1 });
  since_epoch_millis = on_world sample_runtime.since_epoch_millis;
}

abbrev pub whole_store : EventStoreClient Whole
whole_store = record {
  list_aggregate_events = λ r. on_world (sample_client.list_aggregate_events r);
  read_highest_sequence_nr = λ r. on_world (sample_client.read_highest_sequence_nr r);
  append_event = λ events. on_world (sample_client.append_event events);
}

abbrev pub whole_log : Whole → String → List Event
whole_log s = sample_log s.world

pub whole-IsEventStore : IsEventStore whole_runtime whole_store whole_log
unfolding aggregate_events_request
whole-IsEventStore = record {
  lists = λ id s. refl;
  highest = λ id s. refl;
  appends = λ id s events h.
      let (s', appended, grown) = sample-IsEventStore.appends id s.world events h in
      (record s { world = s' }, ap (λ x. (x.0, record s { world = x.1 })) appended, grown);
  draws = λ s j. refl;
  reads_clock = λ s. (_, _, refl, λ j. refl);
}

abbrev pub whole_indexer : Elasticsearch Whole
whole_indexer = record {
  index = λ index id v. on_documents (indexer.index index id v);
  get = λ index id. on_documents (indexer.get index id);
}

abbrev pub whole_document : Whole → String → String → Value
whole_document s = document s.documents

pub whole-KeepsDocuments : KeepsDocuments whole_indexer whole_document
whole-KeepsDocuments = record {
  puts = λ index id v s index' id'. refl;
  gets = λ index id s.
      let (r, got, same) = indexer-KeepsDocuments.gets index id s.documents in
      (r, ap (λ x. (x.0, record s { documents = x.1 })) got, same);
}

abbrev pub whole_list_events : ℤ → Io Whole Events
whole_list_events n s = (ok (streamed n (whole_log s "xxx")), s)

abbrev pub whole_searcher : ExampleQuery.Elasticsearch Whole
whole_searcher = record { search = λ query. on_documents (searcher.search query) }

AreDocuments-whole :
    (s : Whole) (found : Values)
    → AreDocuments document s.documents found
    → AreDocuments whole_document s found
AreDocuments-whole s no_values h = tt
AreDocuments-whole s (value_and hit rest) (here, h) = (here, AreDocuments-whole s rest h)

pub whole-Searches : Searches whole_document whole_searcher sample_matches
whole-Searches = record {
  pages = λ query s s' json_value page answered shown complete.
      let searched : searcher.search query s.documents ≡ (ok json_value, s.documents) =
        cc answered in
      let (are, full) =
        searcher-Searches.pages query s.documents s.documents json_value page searched shown
          complete in
      (AreDocuments-whole s page are, full);
}
