-- ===== src/Channel/Received.antt =====
-- What a worker and its output stream have done in a run of the two tasks
-- (src/axon_utils/{command_worker,query_processor,event_processor}.rs): which messages are received, and
-- what of their output is yielded.
use rusty_dendrite.Prelude.{
  ◌≤◌, ◌≡◌, refl, ap, ap₂, ◌∙◌, List, [], ◌∷◌, ◌++◌, append_assoc, append-nil, sym, arith, length,
  length-append,
}
use rusty_dendrite.Channel.{
  drain, capacity, System, first, left, first-left, Step, send, receive, poll, Reach, here, next,
  start,
}

module _ {A B V : Type 0} (round : V → A → List B × V) where
  Step-bounded :
      {s t : System A B V}
      → Step round s t
      → length s.buffer ≤ capacity
      → length t.buffer ≤ capacity
  Step-bounded (send a pending buffer v out more h) b = omega (arith, length-append buffer (a ∷ []))
  Step-bounded (receive a pending buffer v out) b = omega arith
  Step-bounded (poll x pending buffer v out more) b = b

  drain-last :
      (v : V) (xs : List A) (a : A)
      → ((drain round v (xs ++ a ∷ [])).0
          ≡ (drain round v xs).0 ++ (round (drain round v xs).1 a).0)
        × ((drain round v (xs ++ a ∷ [])).1 ≡ (round (drain round v xs).1 a).1)
  unfolding drain
  drain-last v [] a = (append-nil (round v a).0, refl)
  drain-last v (b ∷ xs) a =
      let (out, vars) = drain-last (round v b).1 xs a in
      (ap (λ l. (round v b).0 ++ l) out ∙ sym (append_assoc (round v b).0 _ _), vars)

  -- How a system stands behind some steps: with the messages that are received, and their output,
  -- of which some may still be in the outbox.
  abbrev pub Received : V → List A → List B → System A B V → List A → Type 0
  Received v messages out t received =
      (messages ≡ received ++ (t.buffer ++ t.pending))
      × (t.yielded ++ t.outbox ≡ out ++ (drain round v received).0)
      × (t.variables ≡ (drain round v received).1)

  Step-Received :
      (v : V) (messages : List A) (out : List B) {s t : System A B V} (received : List A)
      → Step round s t
      → Received v messages out s received
      → (received' : List A) × Received v messages out t received'
  Step-Received v messages out received (send a pending buffer w o more h) (all, said, vars) = (
    received,
    (all ∙ ap (λ l. received ++ l) (sym (append_assoc buffer (a ∷ []) pending)), said, vars),
  )
  Step-Received v messages out received (receive a pending buffer w o) (all, said, vars) =
      let (o', v') = drain-last v received a in
      let bs = (round w a).0 in
      (
        received ++ a ∷ [],
        (
          all ∙ sym (append_assoc received (a ∷ []) (buffer ++ pending)),
          append_assoc o (first bs) (left bs)
              ∙ ap₂ (λ k l. k ++ l) (sym (append-nil o) ∙ said) (first-left bs)
              ∙ append_assoc out (drain round v received).0 bs
              ∙ ap (λ u. out ++ ((drain round v received).0 ++ (round u a).0)) vars
              ∙ ap (λ l. out ++ l) (sym o'),
          ap (λ u. (round u a).1) vars ∙ sym v',
        ),
      )
  Step-Received v messages out received (poll b pending buffer w o more) (all, said, vars) =
      (received, (all, append_assoc o (b ∷ []) more ∙ said, vars))

  -- Whatever the steps, some messages of those that were to be sent are received, and the rest is in
  -- the channel, which has ten at most, or not yet sent.
  pub Reach-Received :
      (v : V) (messages : List A) (out : List B) {t : System A B V}
      → Reach round (start round v messages out) t
      → (length t.buffer ≤ capacity) × ((received : List A) × Received v messages out t received)
  unfolding drain
  Reach-Received v messages out here = (omega arith, ([], (refl, refl, refl)))
  Reach-Received v messages out (next r st) =
      let (bounded, (received, stands)) = Reach-Received v messages out r in
      (Step-bounded st bounded, Step-Received v messages out received st stands)

  -- What holds of the variables and of what is left to yield for the last message, whatever the steps.
  pub Reach-Outbox :
      (Owes : V → List B → Type 0)
      → ((v : V) (a : A) → Owes v [] → Owes (round v a).1 (left (round v a).0))
      → ((v : V) (b : B) (bs : List B) → Owes v (b ∷ bs) → Owes v bs)
      → (v : V) (messages : List A) (out : List B) {t : System A B V} → Owes v []
      → Reach round (start round v messages out) t
      → Owes t.variables t.outbox
  Reach-Outbox Owes rounds yields v messages out o here = o
  Reach-Outbox Owes rounds yields v messages out o (next r (send a pending buffer w out' more h)) =
      Reach-Outbox Owes rounds yields v messages out o r
  Reach-Outbox Owes rounds yields v messages out o (next r (receive a pending buffer w out')) =
      rounds w a (Reach-Outbox Owes rounds yields v messages out o r)
  Reach-Outbox Owes rounds yields v messages out o (next r (poll b pending buffer w out' more)) =
      yields w b more (Reach-Outbox Owes rounds yields v messages out o r)
