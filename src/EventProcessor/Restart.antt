-- ===== src/EventProcessor/Restart.antt =====
-- An event processor that is started again (src/axon_utils/event_processor.rs) against one that runs
-- through.
mod Tests
use rusty_dendrite.Prelude.{
  String, ◌≡◌, refl, sym, ap, ◌∙◌, Option, none, some, List, [], ◌∷◌, ◌++◌, append-nil, length, inl,
  inr,
}
use rusty_dendrite.Prelude.Int.{ℤ}
use rusty_dendrite.Io.{Io, ok, err, message}
use rusty_dendrite.HandlerRegistry.{TheHandlerRegistry}
use rusty_dendrite.EventProcessor.{
  Events, failed, EventWithToken, TokenStore, Run, AxonEventProcessed, initial_token,
  event_processor,
}
use rusty_dendrite.EventProcessor.Tokens.{advance, TokensFrom, IsTokenStore}
use rusty_dendrite.EventProcessor.Tracking.{initial_token-next}
use rusty_dendrite.EventProcessor.Rounds.{
  loop, event_loop-append, event_loop-failed, event_processor-loop,
}

module _ {S Q : Type 0} (tokens : TokenStore S) (query_model : Q)
    (event_handler_registry : TheHandlerRegistry S Q (Option Q)) where
  module _ (peek : S → ℤ)
      (store : IsTokenStore tokens query_model event_handler_registry peek) where
    -- Let the token store keep the token that was stored last, which no handler touches, and let the
    -- server number its events consecutively. Let a first run handle some events from its initial
    -- token on and then end by an error of the stream, and let a second run that is started in the
    -- world it leaves get, under the token that it asks for, the events that follow. Then the two
    -- runs together report the events that one run over the whole stream reports, in the same order,
    -- and the second run ends as that one run does, with the same result and the same world.
    pub event_processor_restarts :
        (ms ns : Events) (status : String) (n : ℤ) (s : S) (broken again whole : ℤ → Io S Events)
        → initial_token tokens s ≡ (ok n, s)
        → TokensFrom n ms
        → let w = loop tokens query_model event_handler_registry ms s in
          w.returned ≡ none
          → broken n s ≡ (ok (ms ++ failed status ∷ []), s)
          → again (advance n (length w.processed)) w.world ≡ (ok ns, w.world)
          → whole n s ≡ (ok (ms ++ ns), s)
          → let first = event_processor tokens query_model event_handler_registry broken s in
            let second =
              event_processor tokens query_model event_handler_registry again first.world in
            let through = event_processor tokens query_model event_handler_registry whole s in
            (first.returned ≡ some (err (message status)))
            × (through.processed ≡ first.processed ++ second.processed)
            × (through.returned ≡ second.returned)
            × (through.world ≡ second.world)
    event_processor_restarts ms ns status n s broken again whole token numbered running e₁ e₂ e₃ =
        let run = loop tokens query_model event_handler_registry in
        let w = run ms s in
        let resumed : initial_token tokens w.world
            ≡ (ok (advance n (length w.processed)), w.world) =
          elim (initial_token-next tokens query_model event_handler_registry peek store ms n s
            numbered token) [
              | inl starts ↦ starts
              | inr (lost, ended, starts) ↦ absurd (cc (ended, running))
            ] in
        rw
          (
            event_processor-loop tokens query_model event_handler_registry broken _ n s s token e₁
                ∙ event_loop-append tokens query_model event_handler_registry ms
                    (failed status ∷ []) s running,
            event_loop-failed tokens query_model event_handler_registry status [] w.world,
            event_processor-loop tokens query_model event_handler_registry again ns _ w.world
                w.world resumed e₂,
            event_processor-loop tokens query_model event_handler_registry whole _ n s s token e₃
                ∙ event_loop-append tokens query_model event_handler_registry ms ns s running,
          )
          (
            refl,
            ap (λ (l : List AxonEventProcessed). l ++ (run ns w.world).processed)
                (sym (append-nil w.processed)),
            refl,
            refl,
          )
