-- ===== src/EventProcessor/Restart/Tests.antt =====
-- A test of the restart of the event processor (src/axon_utils/event_processor.rs): the token store is
-- the world, and the one handler leaves it alone.
use rusty_dendrite.Prelude.{
  ◌≡◌, refl, subst, some, none, Option, String, [], ◌∷◌, ◌++◌, inr, ◌==◌, Bool, true, false,
  if◌then◌else◌,
}
use rusty_dendrite.Prelude.Int.{ℤ, pos, ◌+i64◌}
use rusty_dendrite.Io.{lift, ok, err, message, done, attempt}
use rusty_dendrite.HashMap
use rusty_dendrite.HandlerRegistry
use rusty_dendrite.HandlerRegistry.{SubscriptionHandle, TheHandlerRegistry}
use rusty_dendrite.EventProcessor.{
  Events, item, end_of_stream, failed, EventWithToken, TokenStore, initial_token, token_after,
  event_processor, event_loop, round, process_event, handle_payload, and_then,
}
use rusty_dendrite.EventProcessor.Tokens.{IsTokenStore}
use rusty_dendrite.EventProcessor.Restart.{event_processor_restarts}

abbrev tokens : TokenStore ℤ
tokens = record { store_token = λ token s. token; retrieve_token = λ s. (ok s, s) }

abbrev quiet : SubscriptionHandle ℤ String (Option String)
quiet = record { name = "Quiet"; handle = λ buf query_model s. (ok none, s) }

abbrev registry : TheHandlerRegistry ℤ String (Option String)
registry = record { handlers = ("Quiet", quiet) ∷ [] }

found_quiet :
    (b : Bool) (h : SubscriptionHandle ℤ String (Option String))
    → (if b then some quiet else none) ≡ some h
    → quiet ≡ h
found_quiet true h e = cc
found_quiet false h e = absurd (cc)

tokens-IsTokenStore : IsTokenStore tokens "model" registry (λ s. s)
unfolding HandlerRegistry.get HashMap.get token_after attempt
tokens-IsTokenStore = record {
  retrieves = λ s. (done s, refl, refl);
  stores = λ token s. refl;
  kept = λ name h buf s found.
      subst (λ g. (g.handle buf "model" s).1 ≡ s) (found_quiet ("Quiet" == name) h found) refl;
}

abbrev event_at : ℤ → EventWithToken
event_at token = record {
  token = token;
  event = some (record {
    message_identifier = "id";
    aggregate_identifier = "xxx";
    aggregate_sequence_number = pos 0;
    aggregate_type = "Greeting";
    timestamp = pos 0;
    payload = some (record { type = "Quiet"; revision = ""; bytes = [] });
    snapshot = false;
  });
}

-- The stream breaks behind the token 5, and the events with the tokens 6 and 7 follow.
abbrev before : Events
before = item (event_at (pos 5)) ∷ end_of_stream ∷ []

abbrev behind : Events
behind = item (event_at (pos 6)) ∷ item (event_at (pos 7)) ∷ []

started : initial_token tokens (pos 4) ≡ (ok (pos 5), pos 4)
unfolding initial_token attempt token_after ◌+i64◌
started = refl

first_loop-returned : (event_loop tokens "model" registry before (pos 4)).returned ≡ none
unfolding event_loop round process_event handle_payload and_then HandlerRegistry.get HashMap.get
first_loop-returned = refl

event_processor_restarts_example :
    let first =
      event_processor tokens "model" registry
        (λ n. lift (ok (before ++ failed "unavailable" ∷ [])))
        (pos 4) in
    let second = event_processor tokens "model" registry (λ n. lift (ok behind)) first.world in
    let through =
      event_processor tokens "model" registry (λ n. lift (ok (before ++ behind))) (pos 4) in
    (first.returned ≡ some (err (message "unavailable")))
    × (through.processed ≡ first.processed ++ second.processed)
    × (through.returned ≡ second.returned)
    × (through.world ≡ second.world)
event_processor_restarts_example =
    event_processor_restarts tokens "model" registry (λ s. s) tokens-IsTokenStore before behind
      "unavailable" (pos 5) (pos 4) (λ n. lift (ok (before ++ failed "unavailable" ∷ [])))
      (λ n. lift (ok behind)) (λ n. lift (ok (before ++ behind))) started
      (inr ((_, refl), refl, tt)) first_loop-returned refl refl refl
