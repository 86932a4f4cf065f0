-- ===== src/ExampleEvent/Tests.antt =====
-- Tests of the event processor of the example application (src/example_event/mod.rs). The world is
-- the documents themselves.
use rusty_dendrite.Prelude.{◌≡◌, suc, ◌⊎◌, refl, inr, some, [], ◌∷◌, length, false}
use rusty_dendrite.Prelude.Int.{ℤ, pos, ◌+i64◌}
use rusty_dendrite.Io.{Result, ok, err, with_context, Io, lift, message, attempt}
use rusty_dendrite.Messages.{Bytes}
use rusty_dendrite.EventProcessor.{
  Events, item, hung_up, EventWithToken, initial_token, token_after,
}
use rusty_dendrite.EventProcessor.Tokens.{advance, ListsTokens}
use rusty_dendrite.ExampleCommand.{GreetedEvent}
use rusty_dendrite.Json.{field}
use rusty_dendrite.ExampleEvent.{
  token_in, token_document, token_store, event_handler_registry, process_events,
}
use rusty_dendrite.Sample.Documents.{
  Documents, document, sample_hash, indexer, indexer-KeepsDocuments,
}
use rusty_dendrite.ExampleEvent.Resumes.{token_kept, example_events_resume}

-- A greeting is its own payload, whose bytes are not read here.
abbrev decode : Bytes → Result GreetedEvent
decode [] = err (message "empty")
decode (b ∷ buf) = ok (record { message = some (record { message = "Hello" }) })

abbrev event_at : ℤ → Bytes → EventWithToken
event_at token buf = record {
  token = token;
  event = some (record {
    message_identifier = "id";
    aggregate_identifier = "xxx";
    aggregate_sequence_number = pos 0;
    aggregate_type = "Greeting";
    timestamp = pos 0;
    payload = some (record { type = "GreetedEvent"; revision = ""; bytes = buf });
    snapshot = false;
  });
}

-- The second event does not decode.
abbrev messages_from : ℤ → Events
messages_from n = item (event_at n (1 ∷ [])) ∷ item (event_at (n +i64 pos 1) []) ∷ []

abbrev list_events : ℤ → Io Documents Events
list_events n = lift (ok (messages_from n))

list_events-ListsTokens :
    ListsTokens
      (token_store sample_hash indexer)
      indexer
      (event_handler_registry sample_hash indexer decode)
      (token_kept indexer document)
      list_events
list_events-ListsTokens n s =
    (messages_from n, s, refl, inr ((_, refl), refl, inr ((_, refl), refl, tt)), refl)

-- The token 4 is kept.
abbrev resumed : Documents
resumed = record { index = "tracking-token"; id = "greeting"; value = token_document (pos 4) } ∷ []

resumed-initial_token :
    initial_token (token_store sample_hash indexer) resumed ≡ (ok (pos 5), resumed)
unfolding initial_token token_store attempt token_in token_document field token_after ◌+i64◌
resumed-initial_token = refl

example_events_resume_example :
    let r = process_events sample_hash indexer decode list_events resumed in
    (initial_token (token_store sample_hash indexer) r.world
      ≡ (ok (advance (pos 5) (length r.processed)), r.world))
    ⊎ ((r.returned ≡ some (with_context (err hung_up) "Error while handling commands"))
        × (initial_token (token_store sample_hash indexer) r.world
            ≡ (ok (advance (pos 5) (suc (length r.processed))), r.world)))
example_events_resume_example =
    example_events_resume sample_hash indexer document indexer-KeepsDocuments decode list_events
      list_events-ListsTokens (pos 5) resumed resumed-initial_token
