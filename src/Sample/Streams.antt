-- ===== src/Sample/Streams.antt =====
-- A stream of the greeter's events over an Elastic Search in memory, for the tests.
use rusty_dendrite.Prelude.{String, ◌≡◌, refl, some, none, false, [], ◌∷◌, List}
use rusty_dendrite.Prelude.Int.{ℤ, pos, ◌+i64◌}
use rusty_dendrite.Io.{ok, Io, lift, attempt}
use rusty_dendrite.Messages.{Bytes}
use rusty_dendrite.EventProcessor.{
  Events, item, end_of_stream, failed, EventWithToken, initial_token, token_after,
}
use rusty_dendrite.ExampleCommand.{Greeting}
use rusty_dendrite.ExampleCommand.Spec.{GreeterEvent, greeted, stopped}
use rusty_dendrite.ExampleCommand.Carries.{object}
use rusty_dendrite.Json.{field}
use rusty_dendrite.ExampleEvent.{token_in, token_store}
use rusty_dendrite.ExampleEvent.Indexes.{Delivers, delivers, idles, pauses, breaks}
use rusty_dendrite.Sample.Documents.{Documents, no_documents, sample_hash, indexer}
use rusty_dendrite.Sample.Encodings.{sample_codecs, encode_greeting}

abbrev pub hello : Greeting
hello = record { message = "Hello" }

abbrev pub hi : Greeting
hi = record { message = "Hi" }

abbrev pub event_at : ℤ → String → Bytes → EventWithToken
event_at token type_name buf = record {
  token = token;
  event = some (record {
    message_identifier = "id";
    aggregate_identifier = "xxx";
    aggregate_sequence_number = token;
    aggregate_type = "Greeting";
    timestamp = pos 0;
    payload = some (object type_name buf);
    snapshot = false;
  });
}

-- Two greetings with a stop between them, and then an error of the stream.
abbrev pub sample_history : List GreeterEvent
sample_history = greeted (some hello) ∷ stopped ∷ greeted (some hi) ∷ []

abbrev pub sample_messages : Events
sample_messages =
    item (event_at (pos 0) "GreetedEvent" (encode_greeting (some hello)))
    ∷ end_of_stream
    ∷ item (event_at (pos 1) "StoppedRecordingEvent" [])
    ∷ item (record { token = pos 1; event = none })
    ∷ item (event_at (pos 2) "GreetedEvent" (encode_greeting (some hi)))
    ∷ failed "unavailable"
    ∷ []

pub sample_messages-Delivers : Delivers sample_codecs sample_messages sample_history
sample_messages-Delivers =
    delivers _ _ _ _ _ refl (_, refl, refl)
      (pauses _ _ (
        delivers _ _ _ _ _ refl (_, refl, refl)
          (idles _ _ _ refl (delivers _ _ _ _ _ refl (_, refl, refl) (breaks "unavailable" [])))))

abbrev pub sample_list_events : ℤ → Io Documents Events
sample_list_events n = lift (ok sample_messages)

pub no_documents-initial_token :
    initial_token (token_store sample_hash indexer) no_documents ≡ (ok (pos 0), no_documents)
unfolding initial_token token_store attempt token_in field token_after ◌+i64◌
no_documents-initial_token = refl
