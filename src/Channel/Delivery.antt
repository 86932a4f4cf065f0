-- ===== src/Channel/Delivery.antt =====
-- How a worker and its output stream can go on to the end
-- (src/axon_utils/{command_worker,query_processor,event_processor}.rs).
use rusty_dendrite.Prelude.{
  ℕ, zero, suc, ◌+◌, ◌≤◌, ◌≡◌, refl, ap, ◌∙◌, ◌⊎◌, inl, inr, List, [], ◌∷◌, ◌++◌, append_assoc,
  append-nil, sym, arith, length, length-append,
}
use rusty_dendrite.Channel.{
  drain, System, first, left, first-left, length-left, Step, send, receive, poll, Reach, here, next,
  start,
}

module _ {A B V : Type 0} (round : V → A → List B × V) where
  -- The output that a system ends with if nothing more is sent than what is pending.
  abbrev pub final_output : System A B V → List B
  final_output s = s.yielded ++ (s.outbox ++ (drain round s.variables (s.buffer ++ s.pending)).0)

  Step-final_output : {s t : System A B V} → Step round s t → final_output t ≡ final_output s
  unfolding drain
  Step-final_output (send a pending buffer v out more h) =
      ap (λ (l : List A). out ++ (more ++ (drain round v l).0))
        (append_assoc buffer (a ∷ []) pending)
  Step-final_output (receive a pending buffer v out) =
      let said = (round v a).0 in
      let rest = (drain round (round v a).1 (buffer ++ pending)).0 in
      append_assoc out (first said) (left said ++ rest)
      ∙ ap (λ l. out ++ l)
          (sym (append_assoc (first said) (left said) rest) ∙ ap (λ l. l ++ rest) (first-left said))
  Step-final_output (poll b pending buffer v out more) = append_assoc out (b ∷ []) (more ++ _)

  Reach-final_output : {s t : System A B V} → Reach round s t → final_output t ≡ final_output s
  Reach-final_output here = refl
  Reach-final_output (next r st) = Step-final_output st ∙ Reach-final_output r

  -- No more steps than these are left: two for a message that is not sent, one for one that is, and one
  -- for each piece of output.
  abbrev pub steps_left : System A B V → ℕ
  steps_left s =
      length s.pending
      + (length s.pending
          + length s.buffer
          + (length s.outbox + length (drain round s.variables (s.buffer ++ s.pending)).0))

  -- Each step uses up one of the steps left or more, so no run goes on for ever.
  pub steps_left-Step : {s t : System A B V} → Step round s t → steps_left t + 1 ≤ steps_left s
  unfolding drain
  steps_left-Step (send a pending buffer v out more h) = omega (
    arith,
    length-append buffer (a ∷ []),
    ap (λ (l : List A). length (drain round v l).0) (append_assoc buffer (a ∷ []) pending),
  )
  steps_left-Step (receive a pending buffer v out) = omega (
    arith,
    length-left (round v a).0,
    length-append (round v a).0 (drain round (round v a).1 (buffer ++ pending)).0,
  )
  steps_left-Step (poll b pending buffer v out more) = omega arith

  -- Nothing is left to be sent, to be received or to be yielded.
  abbrev pub IsDone : System A B V → Type 0
  IsDone s = (s.pending ≡ []) × (s.buffer ≡ []) × (s.outbox ≡ [])

  -- A system that is not done has a step: the two tasks never wait for one another.
  progress :
      (pending buffer : List A) (v : V) (out more : List B)
      → let s : System A B V = record {
        pending = pending;
        buffer = buffer;
        variables = v;
        yielded = out;
        outbox = more;
      } in
        ((t : System A B V) × Step round s t) ⊎ IsDone s
  progress pending buffer v out (b ∷ more) = inl (_, poll b pending buffer v out more)
  progress pending (a ∷ buffer) v out [] = inl (_, receive a pending buffer v out)
  progress (a ∷ pending) [] v out [] = inl (_, send a pending [] v out [] (omega arith))
  progress [] [] v out [] = inr (refl, refl, refl)

  Reach-trans : {s t u : System A B V} → Reach round s t → Reach round t u → Reach round s u
  Reach-trans r here = r
  Reach-trans r (next q st) = next (Reach-trans r q) st

  delivers_within :
      (n : ℕ) (s : System A B V)
      → steps_left s ≤ n
      → (t : System A B V) × Reach round s t × IsDone t
  delivers_within zero s h = elim (progress s.pending s.buffer s.variables s.yielded s.outbox) [
    | inr done ↦ (s, here, done)
    | inl (t, st) ↦ absurd (omega (arith, h, steps_left-Step st))
  ]
  delivers_within (suc n) s h = elim (progress s.pending s.buffer s.variables s.yielded s.outbox) [
    | inr done ↦ (s, here, done)
    | inl (t, st) ↦
        let (u, r, done) = delivers_within n t (omega (arith, h, steps_left-Step st)) in
        (u, Reach-trans (next here st) r, done)
  ]

  final_output-delivered : (s : System A B V) → IsDone s → final_output s ≡ s.yielded
  unfolding drain
  final_output-delivered s (sent, received, told) = rw (sent, received, told) (append-nil s.yielded)

  -- The two tasks never wait for one another: from every state that they reach they can go on until
  -- all is received and yielded, and the output is then yielded, in the order of the sends.
  pub delivers :
      (v : V) (messages : List A) (out : List B) {t : System A B V}
      → Reach round (start round v messages out) t
      → (u : System A B V) × Reach round t u
        × IsDone u
        × (u.yielded ≡ out ++ (drain round v messages).0)
  delivers v messages out {t} r =
      let (u, q, done) = delivers_within (steps_left t) t (omega arith) in
      let e = Reach-final_output (Reach-trans r q) in
      (u, q, done, sym (final_output-delivered u done) ∙ e)
