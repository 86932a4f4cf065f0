-- ===== src/ExampleEvent/Runs.antt =====
-- The event processor of the example application over many runs (src/example_event/mod.rs): each run
-- ends where its stream breaks or where it is stopped between two events, and the next one goes on.
mod Tests
use rusty_dendrite.Prelude.{
  ℕ, zero, suc, ◌+◌, String, ◌≡◌, refl, sym, ap, ◌∙◌, ◌⊎◌, inl, inr, subst, List, [], ◌∷◌, ◌++◌,
  All, arith, length, length-append, append_assoc,
}
use rusty_dendrite.Prelude.Int.{ℤ, pos, ◌+i64◌}
use rusty_dendrite.Io.{Io, ok}
use rusty_dendrite.EventStore.{Event}
use rusty_dendrite.EventProcessor.{Events, EventWithToken, initial_token, handle_payload}
use rusty_dendrite.EventProcessor.Tokens.{
  advance, TokensFrom, Unheard, initial_token-peek, peek-handle_payload,
}
use rusty_dendrite.EventProcessor.Tracking.{initial_token-next}
use rusty_dendrite.EventProcessor.Rounds.{event_processor-loop}
use rusty_dendrite.ExampleCommand.{Greeting, Codecs}
use rusty_dendrite.ExampleCommand.Spec.{GreeterEvent}
use rusty_dendrite.ExampleCommand.Carries.{Carries}
use rusty_dendrite.ExampleApi.Greetings.{greeted_in}
use rusty_dendrite.Json.{Value, null}
use rusty_dendrite.ExampleEvent.{
  Elasticsearch, greeting_document, token_store, event_handler_registry, process_events,
}
use rusty_dendrite.ExampleEvent.Resumes.{
  KeepsDocuments, token_kept, query_model-IsTokenStore, process_events-world,
}
use rusty_dendrite.ExampleEvent.Indexes.{
  indexed, Delivers, Delivers-Unheard, length-reported, greetings_indexed, handled-Carries,
}
use rusty_dendrite.ExampleEvent.QueryModel.{IsIn, NoCollision, indexed-Holds}
use rusty_dendrite.ExampleEvent.Ahead.{AtMostNext, indexed-append, IsIn-ahead, put_over, torn_over}

advance-add : (n : ℤ) (a b : ℕ) → advance (advance n a) b ≡ advance n (a + b)
advance-add n zero b = let e : b ≡ 0 + b = omega arith in ap (advance n) e
advance-add n (suc a) b =
    let e : suc (a + b) ≡ suc a + b = omega arith in
    advance-add (n +i64 pos 1) a b ∙ ap (advance n) e

module _ {S : Type 0} (hash : String → String) (es_client : Elasticsearch S)
    (document : S → String → String → Value) (codecs : Codecs) where
  -- The worlds that are reached from a first one, over a history that the server has: with the part of
  -- the history whose tokens are stored, and the part that is to come. When the server is asked for
  -- the token after those that are stored, it streams events that come next, under consecutive
  -- tokens, as far as the run gets and reports. A run may be torn, its event handled and the token not yet
  -- stored. What others do leaves the greetings and the token of the event processor alone.
  pub data Runs (s₀ : S) (history : List GreeterEvent)
      : S → List GreeterEvent → List GreeterEvent → Type 0 where
    not_started : Runs s₀ history s₀ [] history
    run_again :
        (s : S) (vs ws rest : List GreeterEvent) (list_events : ℤ → Io S Events) (messages : Events)
        → Runs s₀ history s vs (ws ++ rest)
        → list_events (advance (pos 0) (length vs)) s ≡ (ok messages, s)
        → TokensFrom (advance (pos 0) (length vs)) messages
        → Delivers codecs messages ws
        → Runs s₀ history
            (process_events hash es_client codecs.greeted_event.decode list_events s).world
            (vs ++ ws)
            rest
    torn :
        (s : S) (vs : List GreeterEvent) (v : GreeterEvent) (rest : List GreeterEvent)
        (event : Event)
        → Runs s₀ history s vs (v ∷ rest)
        → Carries codecs event v
        → Runs s₀ history
            (handle_payload
              (token_store hash es_client)
              es_client
              (event_handler_registry hash es_client codecs.greeted_event.decode)
              event.payload
              s).1
            vs
            (v ∷ rest)
    meanwhile :
        (s s' : S) (vs rest : List GreeterEvent)
        → Runs s₀ history s vs rest
        → ((id : String) → document s' "greetings" id ≡ document s "greetings" id)
        → token_kept es_client document s' ≡ token_kept es_client document s
        → Runs s₀ history s' vs rest

  module _ (keeps : KeepsDocuments es_client document) where
    abbrev peek : S → ℤ
    peek = token_kept es_client document

    run-initial_token :
        (list_events : ℤ → Io S Events) (messages : Events) (n : ℤ) (s : S)
        → initial_token (token_store hash es_client) s ≡ (ok n, s)
        → list_events n s ≡ (ok messages, s)
        → TokensFrom n messages
        → ¬ Unheard messages
        → let r = process_events hash es_client codecs.greeted_event.decode list_events s in
          initial_token (token_store hash es_client) r.world
          ≡ (ok (advance n (length r.processed)), r.world)
    run-initial_token list_events messages n s token opens numbered heard =
        let decode = codecs.greeted_event.decode in
        let (world, processed, returned) =
          process_events-world hash es_client document keeps decode list_events s in
        rw
          (
            world,
            processed,
            event_processor-loop (token_store hash es_client) es_client _ list_events messages n s s
                token opens,
          )
          (elim (initial_token-next (token_store hash es_client) es_client
            (event_handler_registry hash es_client decode) peek
            (query_model-IsTokenStore hash es_client document keeps decode) messages n s numbered
            token) [ inl starts ↦ starts | inr (lost, ended, starts) ↦ absurd (heard lost) ])

    token-peek :
        (s : S) → initial_token (token_store hash es_client) s ≡ (ok (peek s +i64 pos 1), s)
    token-peek =
        initial_token-peek (token_store hash es_client) es_client
          (event_handler_registry hash es_client codecs.greeted_event.decode) peek
          (query_model-IsTokenStore hash es_client document keeps codecs.greeted_event.decode)

    -- How the world stands behind some runs: at most the next event is handled beyond the token.
    abbrev Stands : S → List GreeterEvent → List GreeterEvent → S → Type 0
    Stands s₀ vs rest s =
        (peek s +i64 pos 1 ≡ advance (pos 0) (length vs))
        × ((us : List GreeterEvent) × AtMostNext us rest
            × ((id : String)
                → document s "greetings" id
                  ≡ indexed hash (greeted_in us) id
                      (indexed hash (greeted_in vs) id (document s₀ "greetings" id))))

    Runs-history :
        {s₀ : S} {history : List GreeterEvent} {s : S} {vs rest : List GreeterEvent}
        → Runs s₀ history s vs rest
        → vs ++ rest ≡ history
    Runs-history not_started = refl
    Runs-history (run_again s vs ws rest list_events messages r opens numbered d) =
        append_assoc vs ws rest ∙ Runs-history r
    Runs-history (torn s vs v rest event r carried) = Runs-history r
    Runs-history (meanwhile s s' vs rest r same kept) = Runs-history r

    Runs-Stands :
        (s₀ : S) (history : List GreeterEvent) {s : S} {vs rest : List GreeterEvent}
        → initial_token (token_store hash es_client) s₀ ≡ (ok (pos 0), s₀)
        → Runs s₀ history s vs rest
        → Stands s₀ vs rest s
    Runs-Stands s₀ history fresh not_started = (cc (token-peek s₀, fresh), ([], tt, λ id. refl))
    Runs-Stands s₀ history fresh (meanwhile s s' vs rest r same kept) =
        let (at, (us, next, put)) = Runs-Stands s₀ history fresh r in
        (ap (λ (t : ℤ). t +i64 pos 1) kept ∙ at, (us, next, λ id. same id ∙ put id))
    Runs-Stands s₀ history fresh (torn s vs v rest event r carried) =
        let (at, (us, next, put)) = Runs-Stands s₀ history fresh r in
        let (s', done, puts) =
          handled-Carries hash es_client document keeps codecs event v s carried in
        let registry = event_handler_registry hash es_client codecs.greeted_event.decode in
        let kept =
          peek-handle_payload (token_store hash es_client) es_client registry peek
            (query_model-IsTokenStore hash es_client document keeps codecs.greeted_event.decode)
            event.payload s in
        (
          ap (λ (t : ℤ). t +i64 pos 1) kept ∙ at,
          (
            v ∷ [],
            refl,
            λ id.
                ap (λ x. document x.1 "greetings" id) done
                ∙ torn_over hash us vs v rest (document s "greetings") (document s' "greetings")
                    (document s₀ "greetings") next puts put id,
          ),
        )
    Runs-Stands s₀ history fresh (run_again s vs ws rest list_events messages r opens numbered d) =
        let (at, (us, next, put)) = Runs-Stands s₀ history fresh r in
        let token = token-peek s ∙ ap (λ (t : ℤ). (ok t, s)) at in
        let (told, puts) =
          greetings_indexed hash es_client document keeps codecs list_events messages ws _ s s token
            opens d in
        let w = (process_events hash es_client codecs.greeted_event.decode list_events s).world in
        let moved =
          run-initial_token list_events messages _ s token opens numbered (Delivers-Unheard d) in
        let at' : peek w +i64 pos 1 ≡ advance (advance (pos 0) (length vs)) (length ws) =
          cc (token-peek w, moved, ap length told ∙ length-reported d) in
        (
          at'
              ∙ advance-add (pos 0) (length vs) (length ws)
              ∙ ap (advance (pos 0)) (sym (length-append vs ws)),
          put_over hash us vs ws rest (document s "greetings") (document w "greetings")
              (document s₀ "greetings") next puts put,
        )

    -- Let Elastic Search keep its documents, and have no greetings and no token at first, and let no
    -- two texts of a history have the same hash. However often the event processor is started on it,
    -- whether its runs end by an error of the stream, are stopped between two events, or are stopped
    -- between the handling of an event and the storing of its token, and whatever others do between
    -- the runs that leaves the greetings and the token alone: a next run starts with the token of the
    -- first event whose token is not stored, and the index of greetings has every greeting of the
    -- events before it, possibly that of this one event, each under its hash, and no other document.
    pub Runs-indexed :
        (s₀ s : S) (history vs rest : List GreeterEvent)
        → initial_token (token_store hash es_client) s₀ ≡ (ok (pos 0), s₀)
        → ((id : String) → document s₀ "greetings" id ≡ null)
        → Runs s₀ history s vs rest
        → NoCollision hash (greeted_in history)
        → (vs ++ rest ≡ history)
          × (initial_token (token_store hash es_client) s ≡ (ok (advance (pos 0) (length vs)), s))
          × ((us : List GreeterEvent) × AtMostNext us rest
              × All
                  (λ g. document s "greetings" (hash g.message) ≡ greeting_document hash g.message)
                  (greeted_in (vs ++ us))
              × ((id : String)
                  → (document s "greetings" id ≡ null)
                    ⊎ ((g : Greeting) × IsIn g (greeted_in (vs ++ us))
                        × (document s "greetings" id ≡ greeting_document hash g.message))))
    Runs-indexed s₀ s history vs rest fresh empty r apart =
        let (at, (us, next, put)) = Runs-Stands s₀ history fresh r in
        let streamed = Runs-history r in
        let apart' = subst (λ l. NoCollision hash (greeted_in l)) (sym streamed) apart in
        let (all, only) =
          indexed-Holds hash (greeted_in (vs ++ us)) (document s "greetings")
            (document s₀ "greetings") (λ id. put id ∙ indexed-append hash vs us id _) empty
            (λ a b i j.
              apart' a b (IsIn-ahead a vs us rest next i) (IsIn-ahead b vs us rest next j)) in
        (streamed, token-peek s ∙ ap (λ (t : ℤ). (ok t, s)) at, (us, next, all, only))
