-- ===== src/EventProcessor/Tokens.antt =====
-- What the tracking event processor (src/axon_utils/event_processor.rs) relies on of tokens: how a server
-- numbers its events, and what a token store keeps.
use rusty_dendrite.Prelude.{
  ℕ, zero, suc, String, ◌≡◌, refl, ap, ◌∙◌, ◌⊎◌, inl, inr, Option-cases, Option, none, some, List,
  [], ◌∷◌,
}
use rusty_dendrite.Prelude.Int.{ℤ, pos, ◌+i64◌}
use rusty_dendrite.Io.{Outcome, Io, ok, attempt, next-pure_world}
use rusty_dendrite.Messages.{SerializedObject}
use rusty_dendrite.HandlerRegistry
use rusty_dendrite.HandlerRegistry.{SubscriptionHandle, TheHandlerRegistry}
use rusty_dendrite.EventStore.{Event}
use rusty_dendrite.EventProcessor.{
  Events, item, unheard, end_of_stream, failed, TokenStore, initial_token, token_after,
  handle_payload,
}

-- The token `k` places further on.
abbrev pub advance : ℤ → ℕ → ℤ
advance n zero = n
advance n (suc k) = advance (n +i64 pos 1) k

-- Events that come under consecutive tokens, as the server numbers them, from a first one.
abbrev pub TokensFrom : ℤ → Events → Type 0
TokensFrom n [] = Unit
TokensFrom n (item e ∷ rest) =
    ((e.event ≡ none) × TokensFrom n rest)
    ⊎ (((event : Event) × (e.event ≡ some event)) × (e.token ≡ n) × TokensFrom (n +i64 pos 1) rest)
TokensFrom n (unheard e ∷ rest) =
    ((e.event ≡ none) × TokensFrom n rest)
    ⊎ (((event : Event) × (e.event ≡ some event)) × (e.token ≡ n) × TokensFrom (n +i64 pos 1) rest)
TokensFrom n (end_of_stream ∷ rest) = TokensFrom n rest
TokensFrom n (failed status ∷ rest) = Unit

-- The receiver of the reports is lost at some message.
abbrev pub Unheard : Events → Type 0
Unheard [] = ⊥
Unheard (item e ∷ rest) = Unheard rest
Unheard (unheard e ∷ rest) = Unit
Unheard (end_of_stream ∷ rest) = Unheard rest
Unheard (failed status ∷ rest) = ⊥

module _ {S Q : Type 0} (tokens : TokenStore S) (query_model : Q)
    (event_handler_registry : TheHandlerRegistry S Q (Option Q)) (peek : S → ℤ) where
  -- A token store that keeps the token that was stored last, which no handler touches; where it has
  -- none, `peek` is -1, and it may fail.
  pub record IsTokenStore : Type 0 where
    pub retrieves :
        (s : S)
        → (o : Outcome ℤ) × (attempt tokens.retrieve_token s ≡ (ok o, s))
          × (token_after o ≡ peek s +i64 pos 1)
    pub stores : (token : ℤ) (s : S) → peek (tokens.store_token token s) ≡ token
    pub kept :
        (name : String) (h : SubscriptionHandle S Q (Option Q)) (buf : List ℕ) (s : S)
        → HandlerRegistry.get event_handler_registry name ≡ some h
        → peek (h.handle buf query_model s).1 ≡ peek s

  -- A server that streams events under consecutive tokens from the one that it is asked for.
  abbrev pub ListsTokens : (ℤ → Io S Events) → Type 0
  ListsTokens list_events =
      (n : ℤ) (s : S)
      → (messages : Events) × (s' : S) × (list_events n s ≡ (ok messages, s'))
        × TokensFrom n messages
        × (peek s' ≡ peek s)

  module _ (store : IsTokenStore) where
    pub peek-handle_payload :
        (payload : Option SerializedObject) (s : S)
        → peek (handle_payload tokens query_model event_handler_registry payload s).1 ≡ peek s
    unfolding handle_payload
    peek-handle_payload none s = refl
    peek-handle_payload (some p) s =
        elim (Option-cases (HandlerRegistry.get event_handler_registry p.type)) [
          | inl e ↦ rw (e, handle_payload) refl
          | inr (h, e) ↦
              rw (e, handle_payload)
                (ap peek (next-pure_world tt _ _) ∙ store.kept p.type h p.bytes s e)
        ]

    -- The initial token is the one after the token that is kept.
    pub initial_token-peek : (s : S) → initial_token tokens s ≡ (ok (peek s +i64 pos 1), s)
    unfolding initial_token
    initial_token-peek s =
        let (o, retrieved, after) = store.retrieves s in
        rw retrieved (ap (λ (t : ℤ). (ok t, s)) after)
