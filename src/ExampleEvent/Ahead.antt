-- ===== src/ExampleEvent/Ahead.antt =====
-- The index of greetings where one event more may be handled than the token says
-- (src/example_event/mod.rs): an event that is handled again changes nothing.
use rusty_dendrite.Prelude.{
  String, ◌≡◌, refl, ap, ◌∙◌, inl, inr, subst, none, some, List, [], ◌∷◌, ◌++◌, arith,
}
use rusty_dendrite.ExampleCommand.{Greeting}
use rusty_dendrite.ExampleCommand.Spec.{GreeterEvent, greeted, started, stopped}
use rusty_dendrite.ExampleApi.Greetings.{greeted_in}
use rusty_dendrite.Json.{Value}
use rusty_dendrite.ExampleEvent.Indexes.{indexed}
use rusty_dendrite.ExampleEvent.QueryModel.{IsIn}

pub indexed-append :
    (hash : String → String) (vs ws : List GreeterEvent) (id : String) (x : Value)
    → indexed hash (greeted_in ws) id (indexed hash (greeted_in vs) id x)
      ≡ indexed hash (greeted_in (vs ++ ws)) id x
indexed-append hash [] ws id x = refl
indexed-append hash (greeted none ∷ vs) ws id x = indexed-append hash vs ws id x
indexed-append hash (greeted (some g) ∷ vs) ws id x = indexed-append hash vs ws id _
indexed-append hash (started ∷ vs) ws id x = indexed-append hash vs ws id x
indexed-append hash (stopped ∷ vs) ws id x = indexed-append hash vs ws id x

-- To put the greeting of an event again changes nothing.
indexed-again :
    (hash : String → String) (v : GreeterEvent) (vs : List GreeterEvent) (id : String) (x : Value)
    → indexed hash (greeted_in (v ∷ vs)) id (indexed hash (greeted_in (v ∷ [])) id x)
      ≡ indexed hash (greeted_in (v ∷ vs)) id x
indexed-again hash (greeted none) vs id x = refl
indexed-again hash (greeted (some g)) vs id x = ap (indexed hash (greeted_in vs) id) (ground arith)
indexed-again hash started vs id x = refl
indexed-again hash stopped vs id x = refl

-- None of some events, or the next one.
abbrev pub AtMostNext : List GreeterEvent → List GreeterEvent → Type 0
AtMostNext [] rest = Unit
AtMostNext (u ∷ []) [] = ⊥
AtMostNext (u ∷ []) (v ∷ rest) = u ≡ v
AtMostNext (u ∷ (u' ∷ us)) rest = ⊥

IsIn-first :
    (g : Greeting) (v : GreeterEvent) (vs : List GreeterEvent)
    → IsIn g (greeted_in (v ∷ []))
    → IsIn g (greeted_in (v ∷ vs))
IsIn-first g (greeted none) vs i = absurd i
IsIn-first g (greeted (some h)) vs (inl same) = inl same
IsIn-first g (greeted (some h)) vs (inr i) = absurd i
IsIn-first g started vs i = absurd i
IsIn-first g stopped vs i = absurd i

IsIn-next :
    (g : Greeting) (us rest : List GreeterEvent)
    → AtMostNext us rest
    → IsIn g (greeted_in us)
    → IsIn g (greeted_in rest)
IsIn-next g [] rest next i = absurd i
IsIn-next g (u ∷ []) [] next i = absurd next
IsIn-next g (u ∷ (u' ∷ us)) rest next i = absurd next
IsIn-next g (u ∷ []) (v ∷ rest) next i =
    subst (λ w. IsIn g (greeted_in (w ∷ rest))) next (IsIn-first g u rest i)

pub IsIn-ahead :
    (g : Greeting) (vs us rest : List GreeterEvent)
    → AtMostNext us rest
    → IsIn g (greeted_in (vs ++ us))
    → IsIn g (greeted_in (vs ++ rest))
IsIn-ahead g [] us rest next i = IsIn-next g us rest next i
IsIn-ahead g (greeted none ∷ vs) us rest next i = IsIn-ahead g vs us rest next i
IsIn-ahead g (greeted (some h) ∷ vs) us rest next (inl same) = inl same
IsIn-ahead g (greeted (some h) ∷ vs) us rest next (inr i) = inr (IsIn-ahead g vs us rest next i)
IsIn-ahead g (started ∷ vs) us rest next i = IsIn-ahead g vs us rest next i
IsIn-ahead g (stopped ∷ vs) us rest next i = IsIn-ahead g vs us rest next i

module _ (hash : String → String) where
  -- What the events of a run put over the greetings that are there.
  pub put_over :
      (us vs ws rest : List GreeterEvent) (d e x : String → Value)
      → AtMostNext us (ws ++ rest)
      → ((id : String) → e id ≡ indexed hash (greeted_in ws) id (d id))
      → ((id : String)
          → d id ≡ indexed hash (greeted_in us) id (indexed hash (greeted_in vs) id (x id)))
      → (us' : List GreeterEvent) × AtMostNext us' rest
        × ((id : String)
            → e id
              ≡ indexed hash (greeted_in us') id (indexed hash (greeted_in (vs ++ ws)) id (x id)))
  put_over [] vs ws rest d e x next puts put = (
    [],
    tt,
    λ id.
        puts id
        ∙ ap (indexed hash (greeted_in ws) id) (put id)
        ∙ indexed-append hash vs ws id (x id),
  )
  put_over (u ∷ []) vs [] rest d e x next puts put = (
    u ∷ [],
    next,
    λ id.
        puts id
        ∙ put id
        ∙ ap (indexed hash (greeted_in (u ∷ [])) id) (indexed-append hash vs [] id (x id)),
  )
  put_over (u ∷ []) vs (w ∷ ws) rest d e x next puts put = (
    [],
    tt,
    λ id.
        puts id
        ∙ ap (indexed hash (greeted_in (w ∷ ws)) id) (
            put id
            ∙ ap
                (λ k.
                  indexed hash (greeted_in (k ∷ [])) id (indexed hash (greeted_in vs) id (x id)))
                next)
        ∙ indexed-again hash w ws id _
        ∙ indexed-append hash vs (w ∷ ws) id (x id),
  )
  put_over (u ∷ (u' ∷ us)) vs ws rest d e x next puts put = absurd next

  -- What an event puts whose token is not stored.
  pub torn_over :
      (us vs : List GreeterEvent) (v : GreeterEvent) (rest : List GreeterEvent)
      (d e x : String → Value)
      → AtMostNext us (v ∷ rest)
      → ((id : String) → e id ≡ indexed hash (greeted_in (v ∷ [])) id (d id))
      → ((id : String)
          → d id ≡ indexed hash (greeted_in us) id (indexed hash (greeted_in vs) id (x id)))
      → (id : String)
      → e id ≡ indexed hash (greeted_in (v ∷ [])) id (indexed hash (greeted_in vs) id (x id))
  torn_over [] vs v rest d e x next puts put id =
      puts id ∙ ap (indexed hash (greeted_in (v ∷ [])) id) (put id)
  torn_over (u ∷ []) vs v rest d e x next puts put id =
      puts id
      ∙ ap (indexed hash (greeted_in (v ∷ [])) id) (
          put id
          ∙ ap (λ k. indexed hash (greeted_in (k ∷ [])) id (indexed hash (greeted_in vs) id (x id)))
              next)
      ∙ indexed-again hash v [] id _
  torn_over (u ∷ (u' ∷ us)) vs v rest d e x next puts put id = absurd next
