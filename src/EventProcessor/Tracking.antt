-- ===== src/EventProcessor/Tracking.antt =====
-- From which token the tracking event processor resumes (src/axon_utils/event_processor.rs).
use rusty_dendrite.Prelude.{
  suc, ◌≡◌, refl, ap, ◌∙◌, ◌⊎◌, inl, inr, Option, none, some, [], ◌∷◌, length,
}
use rusty_dendrite.Prelude.Int.{ℤ, pos, ◌+i64◌}
use rusty_dendrite.Io.{Io, Result, ok, err, panicked, next}
use rusty_dendrite.HandlerRegistry.{TheHandlerRegistry}
use rusty_dendrite.EventStore.{Event}
use rusty_dendrite.EventProcessor.{
  AxonEventProcessed, Events, item, unheard, end_of_stream, failed, hung_up, unheard_and,
  unheard_round, EventWithToken, TokenStore, Run, initial_token, handle_payload, process_event,
  and_then, round, event_loop, opened, event_processor,
}
use rusty_dendrite.EventProcessor.Tokens.{
  advance, TokensFrom, Unheard, IsTokenStore, ListsTokens, peek-handle_payload, initial_token-peek,
}

module _ {S Q : Type 0} (tokens : TokenStore S) (query_model : Q)
    (event_handler_registry : TheHandlerRegistry S Q (Option Q)) (peek : S → ℤ)
    (store : IsTokenStore tokens query_model event_handler_registry peek) where
  -- The token that is stored fits the number of events that were reported, or one event more was
  -- handled, whose report was not received.
  abbrev Resumes : Type 0 → ℤ → Run S → Type 0
  Resumes U n r =
      (peek r.world +i64 pos 1 ≡ advance n (length r.processed))
      ⊎ (U
          × (r.returned ≡ some (err hung_up))
          × (peek r.world +i64 pos 1 ≡ advance n (suc (length r.processed))))

  abbrev storing : Event → ℤ → Unit {0} → Io S AxonEventProcessed
  storing event token _ s =
      (ok (record { message_identifier = event.message_identifier }), tokens.store_token token s)

  Resumes-and_then :
      (U : Type 0) (event : Event) (token n : ℤ) (x : Result (Unit {0})) (s : S) (rest : S → Run S)
      → token ≡ n
      → peek s +i64 pos 1 ≡ n
      → ((s' : S) → peek s' +i64 pos 1 ≡ n +i64 pos 1 → Resumes U (n +i64 pos 1) (rest s'))
      → Resumes U n
          (and_then tokens query_model event_handler_registry (next (storing event token) x s) rest)
  unfolding and_then
  Resumes-and_then U event token n (ok _) s rest e at h =
      h (tokens.store_token token s) (ap (λ (t : ℤ). t +i64 pos 1) (store.stores token s ∙ e))
  Resumes-and_then U event token n (err x) s rest e at h = inl at
  Resumes-and_then U event token n panicked s rest e at h = inl at

  Resumes-unheard_and :
      (event : Event) (token n : ℤ) (x : Result (Unit {0})) (s : S)
      → token ≡ n
      → peek s +i64 pos 1 ≡ n
      → Resumes Unit n
          (unheard_and tokens query_model event_handler_registry (next (storing event token) x s))
  unfolding unheard_and
  Resumes-unheard_and event token n (ok _) s e at =
      inr (tt, refl, ap (λ (t : ℤ). t +i64 pos 1) (store.stores token s ∙ e))
  Resumes-unheard_and event token n (err x) s e at = inl at
  Resumes-unheard_and event token n panicked s e at = inl at

  Resumes-round :
      (U : Type 0) (e : EventWithToken) (event : Event) (n : ℤ) (s : S) (rest : S → Run S)
      → e.event ≡ some event
      → e.token ≡ n
      → peek s +i64 pos 1 ≡ n
      → ((s' : S) → peek s' +i64 pos 1 ≡ n +i64 pos 1 → Resumes U (n +i64 pos 1) (rest s'))
      → Resumes U n (round tokens query_model event_handler_registry e s rest)
  unfolding round process_event
  Resumes-round U e event n s rest found token at h = rw found (
      Resumes-and_then U event e.token n
        (handle_payload tokens query_model event_handler_registry event.payload s).0
        (handle_payload tokens query_model event_handler_registry event.payload s).1 rest token
        (ap (λ (t : ℤ). t +i64 pos 1)
            (peek-handle_payload tokens query_model event_handler_registry peek store event.payload
              s)
          ∙ at)
        h)

  Resumes-unheard_round :
      (e : EventWithToken) (event : Event) (n : ℤ) (s : S) (rest : S → Run S)
      → e.event ≡ some event
      → e.token ≡ n
      → peek s +i64 pos 1 ≡ n
      → Resumes Unit n (unheard_round tokens query_model event_handler_registry e s rest)
  unfolding unheard_round process_event
  Resumes-unheard_round e event n s rest found token at = rw found (
      Resumes-unheard_and event e.token n
        (handle_payload tokens query_model event_handler_registry event.payload s).0
        (handle_payload tokens query_model event_handler_registry event.payload s).1 token
        (ap (λ (t : ℤ). t +i64 pos 1)
            (peek-handle_payload tokens query_model event_handler_registry peek store event.payload
              s)
          ∙ at))

  -- A loss of the receiver that is possible is not ruled out.
  Resumes-Unit : (U : Type 0) (n : ℤ) (r : Run S) → Resumes U n r → Resumes Unit n r
  Resumes-Unit U n r (inl at) = inl at
  Resumes-Unit U n r (inr (u, ended, at)) = inr (tt, ended, at)

  skip_unheard_round :
      (e : EventWithToken) (s : S) (rest : S → Run S)
      → e.event ≡ none
      → unheard_round tokens query_model event_handler_registry e s rest ≡ rest s
  unfolding unheard_round
  skip_unheard_round e s rest missing = rw missing refl

  skip_round :
      (e : EventWithToken) (s : S) (rest : S → Run S)
      → e.event ≡ none
      → round tokens query_model event_handler_registry e s rest ≡ rest s
  unfolding round
  skip_round e s rest missing = rw missing refl

  Resumes-event_loop :
      (messages : Events) (n : ℤ) (s : S)
      → TokensFrom n messages
      → peek s +i64 pos 1 ≡ n
      → Resumes
          (Unheard messages)
          n
          (event_loop tokens query_model event_handler_registry messages s)
  unfolding event_loop
  Resumes-event_loop [] n s h at = inl at
  Resumes-event_loop (item e ∷ messages) n s (inl (missing, h)) at =
      rw (skip_round e s (event_loop tokens query_model event_handler_registry messages) missing)
        (Resumes-event_loop messages n s h at)
  Resumes-event_loop (item e ∷ messages) n s (inr ((event, found), token, h)) at =
      Resumes-round (Unheard messages) e event n s _ found token at
        (λ s' at'. Resumes-event_loop messages (n +i64 pos 1) s' h at')
  Resumes-event_loop (unheard e ∷ messages) n s (inl (missing, h)) at =
      rw
        (skip_unheard_round e s (event_loop tokens query_model event_handler_registry messages)
          missing)
        (Resumes-Unit (Unheard messages) n
          (event_loop tokens query_model event_handler_registry messages s)
          (Resumes-event_loop messages n s h at))
  Resumes-event_loop (unheard e ∷ messages) n s (inr ((event, found), token, h)) at =
      Resumes-unheard_round e event n s _ found token at
  Resumes-event_loop (end_of_stream ∷ messages) n s h at = Resumes-event_loop messages n s h at
  Resumes-event_loop (failed status ∷ messages) n s h at = inl at

  -- What a next run starts with: the token after the events that were reported, or, where the run
  -- has ended because its last report was not received, the one after that event.
  abbrev pub StartsBehind : Type 0 → ℤ → Run S → Type 0
  StartsBehind U n r =
      (initial_token tokens r.world ≡ (ok (advance n (length r.processed)), r.world))
      ⊎ (U
          × (r.returned ≡ some (err hung_up))
          × (initial_token tokens r.world ≡ (ok (advance n (suc (length r.processed))), r.world)))

  StartsBehind-Resumes : (U : Type 0) (n : ℤ) (r : Run S) → Resumes U n r → StartsBehind U n r
  StartsBehind-Resumes U n r (inl at) = inl (
      initial_token-peek tokens query_model event_handler_registry peek store r.world
      ∙ ap (λ (t : ℤ). (ok t, r.world)) at)
  StartsBehind-Resumes U n r (inr (u, ended, at)) = inr (
    u,
    ended,
    initial_token-peek tokens query_model event_handler_registry peek store r.world
        ∙ ap (λ (t : ℤ). (ok t, r.world)) at,
  )

  -- The initial token behind a loop.
  pub initial_token-next :
      (messages : Events) (n : ℤ) (s : S)
      → TokensFrom n messages
      → initial_token tokens s ≡ (ok n, s)
      → StartsBehind
          (Unheard messages)
          n
          (event_loop tokens query_model event_handler_registry messages s)
  initial_token-next messages n s numbered e =
      StartsBehind-Resumes (Unheard messages) n
        (event_loop tokens query_model event_handler_registry messages s)
        (Resumes-event_loop messages n s numbered
          (cc (initial_token-peek tokens query_model event_handler_registry peek store s, e)))

  -- No event is skipped: let the token store keep the token that was stored last, which no handler
  -- touches, and let the server stream events under consecutive tokens from the one that it is asked
  -- for. However a run ends, also by the error or the panic of a handler or by an error of the
  -- stream, the initial token of a next run is the one after the events that were reported as
  -- processed; but where the run has ended because the receiver of its reports was lost, it may be
  -- the one after that, since the event was handled and its token stored before its report failed.
  pub event_processor_resumes :
      (list_events : ℤ → Io S Events)
      (server : ListsTokens tokens query_model event_handler_registry peek list_events) (n : ℤ)
      (s : S)
      → initial_token tokens s ≡ (ok n, s)
      → let r = event_processor tokens query_model event_handler_registry list_events s in
        (initial_token tokens r.world ≡ (ok (advance n (length r.processed)), r.world))
        ⊎ ((r.returned ≡ some (err hung_up))
            × (initial_token tokens r.world ≡ (ok (advance n (suc (length r.processed))), r.world)))
  unfolding event_processor opened
  event_processor_resumes list_events server n s e =
      let (messages, s', opens, numbered, same) = server n s in
      let r = event_loop tokens query_model event_handler_registry messages s' in
      let at : peek s' +i64 pos 1 ≡ n =
        ap (λ (t : ℤ). t +i64 pos 1) same
        ∙ cc (initial_token-peek tokens query_model event_handler_registry peek store s) in
      rw (e, opens)
        (elim (StartsBehind-Resumes (Unheard messages) n r
          (Resumes-event_loop messages n s' numbered at)) [
            | inl starts ↦ inl starts
            | inr (u, ended, starts) ↦ inr (ended, starts)
          ])
