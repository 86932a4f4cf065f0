-- ===== src/EventProcessor/Rounds.antt =====
-- The rounds of the loop of `event_processor` (src/axon_utils/event_processor.rs), and runs that
-- follow one another.
use rusty_dendrite.Prelude.{String, ◌≡◌, refl, ap, Option, none, some, [], ◌∷◌, ◌++◌}
use rusty_dendrite.Prelude.Int.{ℤ}
use rusty_dendrite.Io.{Io, Result, ok, err, panicked, message}
use rusty_dendrite.Messages.{SerializedObject}
use rusty_dendrite.HandlerRegistry
use rusty_dendrite.HandlerRegistry.{SubscriptionHandle, TheHandlerRegistry}
use rusty_dendrite.EventStore.{Event}
use rusty_dendrite.EventProcessor.{
  Events, item, unheard, end_of_stream, failed, unheard_and, unheard_round, EventWithToken,
  TokenStore, Run, AxonEventProcessed, handle_payload, process_event, and_then, round, event_loop,
  initial_token, opened, event_processor,
}

-- A run that goes on where another one stands.
abbrev pub followed_by : {S : Type 0} → Run S → Run S → Run S
followed_by r r' = record {
  processed = r.processed ++ r'.processed;
  returned = r'.returned;
  world = r'.world;
}

module _ {S Q : Type 0} (tokens : TokenStore S) (query_model : Q)
    (event_handler_registry : TheHandlerRegistry S Q (Option Q)) where
  abbrev pub loop : Events → S → Run S
  loop = event_loop tokens query_model event_handler_registry

  -- A handler that succeeds on a payload, and a payload with no handler.
  pub handle_payload-found :
      (payload : SerializedObject) (h : SubscriptionHandle S Q (Option Q)) (o : Option (Option Q))
      (s s' : S)
      → HandlerRegistry.get event_handler_registry payload.type ≡ some h
      → h.handle payload.bytes query_model s ≡ (ok o, s')
      → handle_payload tokens query_model event_handler_registry (some payload) s ≡ (ok tt, s')
  unfolding handle_payload
  handle_payload-found payload h o s s' found handled = rw (found, handled, handle_payload) refl

  pub handle_payload-unknown :
      (payload : SerializedObject) (s : S)
      → HandlerRegistry.get event_handler_registry payload.type ≡ none
      → handle_payload tokens query_model event_handler_registry (some payload) s ≡ (ok tt, s)
  unfolding handle_payload
  handle_payload-unknown payload s unknown = rw (unknown, handle_payload) refl

  pub event_loop-nil : (s : S) → loop [] s ≡ record { processed = []; returned = none; world = s }
  unfolding event_loop
  event_loop-nil s = refl

  pub event_loop-failed :
      (status : String) (messages : Events) (s : S)
      → loop (failed status ∷ messages) s
        ≡ record { processed = []; returned = some (err (message status)); world = s }
  unfolding event_loop
  event_loop-failed status messages s = refl

  pub event_loop-end_of_stream :
      (messages : Events) (s : S) → loop (end_of_stream ∷ messages) s ≡ loop messages s
  unfolding event_loop
  event_loop-end_of_stream messages s = refl

  pub event_loop-none :
      (e : EventWithToken) (messages : Events) (s : S)
      → e.event ≡ none
      → loop (item e ∷ messages) s ≡ loop messages s
  unfolding event_loop round
  event_loop-none e messages s missing = rw missing refl

  -- An event that is handled is reported, and its token is stored behind it.
  pub event_loop-handled :
      (e : EventWithToken) (event : Event) (messages : Events) (s s' : S)
      → e.event ≡ some event
      → handle_payload tokens query_model event_handler_registry event.payload s ≡ (ok tt, s')
      → let rest = loop messages (tokens.store_token e.token s') in
        loop (item e ∷ messages) s ≡ record {
          processed = record { message_identifier = event.message_identifier } ∷ rest.processed;
          returned = rest.returned;
          world = rest.world;
        }
  unfolding event_loop round process_event and_then
  event_loop-handled e event messages s s' found handled = rw (found, handled) refl

  -- The rounds after one round, split in two.
  Splits-and_then :
      (x : Result AxonEventProcessed) (s : S) (rest whole : S → Run S) (more : S → Run S)
      → ((s' : S)
          → (rest s').returned ≡ none
          → whole s' ≡ followed_by (rest s') (more (rest s').world))
      → let r = and_then tokens query_model event_handler_registry (x, s) rest in
        r.returned ≡ none
        → and_then tokens query_model event_handler_registry (x, s) whole
          ≡ followed_by r (more r.world)
  unfolding and_then
  Splits-and_then (ok processed) s rest whole more h running =
      ap
        (λ (r : Run S). record {
          processed = processed ∷ r.processed;
          returned = r.returned;
          world = r.world;
        })
        (h s running)
  Splits-and_then (err e) s rest whole more h running = absurd (cc running)
  Splits-and_then panicked s rest whole more h running = absurd (cc running)

  Splits-round :
      (o : Option Event) (e : EventWithToken) (s : S) (rest whole more : S → Run S)
      → e.event ≡ o
      → ((s' : S)
          → (rest s').returned ≡ none
          → whole s' ≡ followed_by (rest s') (more (rest s').world))
      → let r = round tokens query_model event_handler_registry e s rest in
        r.returned ≡ none
        → round tokens query_model event_handler_registry e s whole ≡ followed_by r (more r.world)
  unfolding round
  Splits-round none e s rest whole more found h = rw found (h s)
  Splits-round (some event) e s rest whole more found h = rw found (
      Splits-and_then (process_event tokens query_model event_handler_registry e.token event s).0
        (process_event tokens query_model event_handler_registry e.token event s).1 rest whole more
        h)

  unheard_and-returned :
      (x : Result AxonEventProcessed) (s : S)
      → ¬ ((unheard_and tokens query_model event_handler_registry (x, s)).returned ≡ none)
  unfolding unheard_and
  unheard_and-returned (ok processed) s e = cc e
  unheard_and-returned (err x) s e = cc e
  unheard_and-returned panicked s e = cc e

  Splits-unheard :
      (o : Option Event) (e : EventWithToken) (s : S) (rest whole more : S → Run S)
      → e.event ≡ o
      → ((s' : S)
          → (rest s').returned ≡ none
          → whole s' ≡ followed_by (rest s') (more (rest s').world))
      → let r = unheard_round tokens query_model event_handler_registry e s rest in
        r.returned ≡ none
        → unheard_round tokens query_model event_handler_registry e s whole
          ≡ followed_by r (more r.world)
  unfolding unheard_round
  Splits-unheard none e s rest whole more found h = rw found (h s)
  Splits-unheard (some event) e s rest whole more found h =
      rw found (λ running. absurd (unheard_and-returned _ _ running))

  -- The loop over some messages that it all handles, and then over more.
  pub event_loop-append :
      (ms ns : Events) (s : S)
      → (loop ms s).returned ≡ none
      → loop (ms ++ ns) s ≡ followed_by (loop ms s) (loop ns (loop ms s).world)
  unfolding event_loop
  event_loop-append [] ns s running = refl
  event_loop-append (item e ∷ ms) ns s running =
      Splits-round e.event e s (loop ms) (loop (ms ++ ns)) (loop ns) refl
        (λ s' running'. event_loop-append ms ns s' running') running
  event_loop-append (unheard e ∷ ms) ns s running =
      Splits-unheard e.event e s (loop ms) (loop (ms ++ ns)) (loop ns) refl
        (λ s' running'. event_loop-append ms ns s' running') running
  event_loop-append (end_of_stream ∷ ms) ns s running = event_loop-append ms ns s running
  event_loop-append (failed status ∷ ms) ns s running = absurd (cc running)

  -- A run is the loop over the stream that the server opens for its initial token.
  pub event_processor-loop :
      (list_events : ℤ → Io S Events) (messages : Events) (n : ℤ) (s s' : S)
      → initial_token tokens s ≡ (ok n, s)
      → list_events n s ≡ (ok messages, s')
      → event_processor tokens query_model event_handler_registry list_events s ≡ loop messages s'
  unfolding event_processor opened
  event_processor-loop list_events messages n s s' token opens = rw (token, opens) refl
