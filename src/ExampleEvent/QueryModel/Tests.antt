-- ===== src/ExampleEvent/QueryModel/Tests.antt =====
-- Tests of the greetings in Elastic Search behind a run of the event processor
-- (src/example_event/mod.rs).
use rusty_dendrite.Prelude.{String, ◌≡◌, refl, ◌⊎◌, All}
use rusty_dendrite.Prelude.Int.{pos}
use rusty_dendrite.ExampleCommand.{Greeting}
use rusty_dendrite.ExampleApi.Greetings.{greeted_in}
use rusty_dendrite.ExampleEvent.{greeting_document, process_events}
use rusty_dendrite.ExampleEvent.Indexes.{indexed, reported, greetings_indexed}
use rusty_dendrite.ExampleEvent.QueryModel.{IsIn, query_model-Holds}
use rusty_dendrite.Json.{null}
use rusty_dendrite.Sample.Encodings.{sample_codecs}
use rusty_dendrite.Sample.Documents.{
  document, no_documents, sample_hash, indexer, indexer-KeepsDocuments,
}
use rusty_dendrite.Sample.Streams.{
  sample_history, sample_messages, sample_messages-Delivers, sample_list_events,
  no_documents-initial_token,
}

greetings_indexed_example :
    let r =
      process_events sample_hash indexer sample_codecs.greeted_event.decode sample_list_events
        no_documents in
    (r.processed ≡ reported sample_messages)
    × ((id : String)
        → document r.world "greetings" id
          ≡ indexed sample_hash
              (greeted_in sample_history)
              id
              (document no_documents "greetings" id))
greetings_indexed_example =
    greetings_indexed sample_hash indexer document indexer-KeepsDocuments sample_codecs
      sample_list_events sample_messages sample_history (pos 0) no_documents no_documents
      no_documents-initial_token refl sample_messages-Delivers

query_model-Holds_example :
    let w =
      (process_events sample_hash indexer sample_codecs.greeted_event.decode sample_list_events
        no_documents).world in
    All
      (λ g.
        document w "greetings" (sample_hash g.message) ≡ greeting_document sample_hash g.message)
      (greeted_in sample_history)
    × ((id : String)
        → (document w "greetings" id ≡ null)
          ⊎ ((g : Greeting) × IsIn g (greeted_in sample_history)
              × (document w "greetings" id ≡ greeting_document sample_hash g.message)))
query_model-Holds_example =
    query_model-Holds sample_hash indexer document indexer-KeepsDocuments sample_codecs
      sample_list_events sample_messages sample_history (pos 0) no_documents no_documents
      no_documents-initial_token refl sample_messages-Delivers (λ id. refl) (λ a b i j e. e)
