-- ===== src/ExampleEvent/Runs/Tests.antt =====
-- A test of runs of the event processor, one of them torn, with another task between them (src/example_event/mod.rs).
use rusty_dendrite.Prelude.{String, ◌≡◌, refl, ◌⊎◌, inr, some, List, [], ◌∷◌, ◌++◌, All, false}
use rusty_dendrite.Prelude.Int.{pos, ◌+i64◌}
use rusty_dendrite.Io.{lift, ok}
use rusty_dendrite.EventStore.{Event}
use rusty_dendrite.EventProcessor.{
  Events, item, end_of_stream, failed, initial_token, handle_payload,
}
use rusty_dendrite.EventProcessor.Tokens.{advance}
use rusty_dendrite.ExampleCommand.Carries.{object}
use rusty_dendrite.ExampleCommand.{Greeting}
use rusty_dendrite.ExampleCommand.Spec.{GreeterEvent, greeted, stopped}
use rusty_dendrite.ExampleApi.Greetings.{greeted_in}
use rusty_dendrite.Json.{null}
use rusty_dendrite.ExampleEvent.{
  greeting_document, token_store, event_handler_registry, process_events,
}
use rusty_dendrite.ExampleEvent.Indexes.{delivers, over, pauses, breaks}
use rusty_dendrite.ExampleEvent.QueryModel.{IsIn}
use rusty_dendrite.ExampleEvent.Ahead.{AtMostNext}
use rusty_dendrite.ExampleEvent.Runs.{Runs, not_started, run_again, torn, meanwhile, Runs-indexed}
use rusty_dendrite.Sample.Documents.{
  Documents, document, no_documents, sample_hash, indexer, indexer-KeepsDocuments,
}
use rusty_dendrite.Sample.Encodings.{sample_codecs, encode_greeting}
use rusty_dendrite.Sample.Streams.{hello, hi, event_at, no_documents-initial_token}

-- The stream breaks behind the first event.
abbrev first_messages : Events
first_messages =
    item (event_at (pos 0) "GreetedEvent" (encode_greeting (some hello)))
    ∷ failed "unavailable"
    ∷ []

abbrev hi_event : Event
hi_event = record {
  message_identifier = "id";
  aggregate_identifier = "xxx";
  aggregate_sequence_number = pos 1;
  aggregate_type = "Greeting";
  timestamp = pos 0;
  payload = some (object "GreetedEvent" (encode_greeting (some hi)));
  snapshot = false;
}

abbrev second_messages : Events
second_messages =
    item (record { token = pos 1; event = some hi_event })
    ∷ end_of_stream
    ∷ item (event_at (pos 2) "StoppedRecordingEvent" [])
    ∷ []

abbrev run : Events → Documents → Documents
run messages s =
    (process_events sample_hash indexer sample_codecs.greeted_event.decode (λ n. lift (ok messages))
      s).world

-- Something else is put behind the first run, and then a run is stopped before it stores a token.
abbrev between : Documents
between = record { index = "other"; id = "Hi"; value = null } ∷ run first_messages no_documents

abbrev torn_world : Documents
torn_world =
    (handle_payload (token_store sample_hash indexer) indexer
      (event_handler_registry sample_hash indexer sample_codecs.greeted_event.decode)
      hi_event.payload between).1

abbrev history : List GreeterEvent
history = greeted (some hello) ∷ greeted (some hi) ∷ stopped ∷ []

thrice-Runs :
    Runs sample_hash indexer document sample_codecs no_documents history
      (run second_messages torn_world)
      history
      []
unfolding ◌+i64◌
thrice-Runs =
    run_again torn_world (greeted (some hello) ∷ []) (greeted (some hi) ∷ stopped ∷ []) [] _
      second_messages
      (torn between (greeted (some hello) ∷ []) (greeted (some hi)) (stopped ∷ []) hi_event
        (meanwhile (run first_messages no_documents) between _ _
          (run_again no_documents [] (greeted (some hello) ∷ []) (greeted (some hi) ∷ stopped ∷ [])
            _ first_messages not_started refl (inr ((_, refl), refl, tt))
            (delivers _ _ _ _ _ refl (_, refl, refl) (breaks "unavailable" [])))
          (λ id. refl) refl)
        (_, refl, refl))
      refl (inr ((_, refl), refl, inr ((_, refl), refl, tt)))
      (delivers _ _ _ _ _ refl (_, refl, refl)
        (pauses _ _ (delivers _ _ _ _ _ refl (_, refl, refl) over)))

Runs-indexed_example :
    let w = run second_messages torn_world in
    (history ++ [] ≡ history)
    × (initial_token (token_store sample_hash indexer) w ≡ (ok (advance (pos 0) 3), w))
    × ((us : List GreeterEvent) × AtMostNext us []
        × All
            (λ g.
              document w "greetings" (sample_hash g.message)
              ≡ greeting_document sample_hash g.message)
            (greeted_in (history ++ us))
        × ((id : String)
            → (document w "greetings" id ≡ null)
              ⊎ ((g : Greeting) × IsIn g (greeted_in (history ++ us))
                  × (document w "greetings" id ≡ greeting_document sample_hash g.message))))
Runs-indexed_example =
    Runs-indexed sample_hash indexer document sample_codecs indexer-KeepsDocuments no_documents
      (run second_messages torn_world) history history [] no_documents-initial_token (λ id. refl)
      thrice-Runs (λ a b i j e. e)
