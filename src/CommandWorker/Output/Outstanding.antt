-- ===== src/CommandWorker/Output/Outstanding.antt =====
-- The commands that are outstanding while the worker and its output stream run as two tasks
-- (src/axon_utils/command_worker.rs).
use rusty_dendrite.Prelude.{
  ℕ, ◌+◌, ◌≤◌, String, ◌≡◌, refl, sym, ap, ◌∙◌, ◌⊎◌, inl, inr, Bool, true, false, List, [], ◌∷◌,
  ◌++◌, append-nil, arith, map, length,
}
use rusty_dendrite.Prelude.Int.{ℤ, pos, pos_part}
use rusty_dendrite.Channel.{System, Reach, start, capacity, left}
use rusty_dendrite.Channel.Received.{Reach-Received, Reach-Outbox}
use rusty_dendrite.Permits.{
  initial_permits_lem, settle, Balanced, Balanced-bounds, Decided, settle-Decided,
}
use rusty_dendrite.CommandWorker.Protocol.{CommandProviderOutbound}
use rusty_dendrite.CommandWorker.Worker.{AxonCommandResult}
use rusty_dendrite.CommandWorker.Output.{
  StreamState, grant, settled, respond, opening, create_output_stream,
}
use rusty_dendrite.CommandWorker.Output.Answers.{
  Answer, answered, answered_by, answered-append, answer_to,
}
use rusty_dendrite.CommandWorker.Output.FlowControl.{
  permits_of, granted, granted-append, command_stream_permits, command_stream_balance,
}

-- What the stream has still to yield for a result that it has answered: nothing, or the grant by
-- which the balance is six.
abbrev Owes : StreamState → List CommandProviderOutbound → Type 0
Owes st [] = Balanced st.permits
Owes st (b ∷ []) =
    (st.permits ≡ pos 6)
    × (permits_of b.request ≡ 3)
    × ((rest : List Answer) → answered_by b.request rest ≡ rest)
Owes st (b ∷ c ∷ bs) = ⊥

yields_owed :
    (st : StreamState) (b : CommandProviderOutbound) (bs : List CommandProviderOutbound)
    → Owes st (b ∷ bs)
    → Owes st bs
yields_owed st b [] (six, _, _) = inr (inr six)
yields_owed st b (c ∷ bs) o = absurd o

-- The margin of the permits over the answers, before and after a grant that is still to be yielded.
abbrev pub Margin : ℕ → List CommandProviderOutbound → List CommandProviderOutbound → Type 0
Margin n yielded outbox =
    (n + 4 ≤ granted yielded) ⊎ ((granted outbox ≡ 3) × (granted yielded ≡ n + 3))

-- What has been yielded, from what has been yielded and is still owed.
Owes-yielded :
    (st : StreamState) (n : ℕ) (yielded outbox : List CommandProviderOutbound)
    → Owes st outbox
    → granted (yielded ++ outbox) ≡ n + pos_part st.permits
    → (answered (yielded ++ outbox) ≡ answered yielded)
      × Margin n yielded outbox
      × (granted yielded ≤ n + 6)
Owes-yielded st n yielded [] b sum =
    let all = append-nil yielded in
    let bounds = Balanced-bounds st.permits b in
    (
      ap answered all,
      inl (omega (arith, bounds, sum, ap granted all)),
      omega (arith, bounds, sum, ap granted all),
    )
Owes-yielded st n yielded (g ∷ []) (six, three, silent) sum =
    let both = granted-append yielded (g ∷ []) in
    let balance : pos_part st.permits ≡ 6 = ap pos_part six in
    let now : granted yielded ≡ n + 3 = omega (arith, both, sum, balance, three) in
    (
      answered-append yielded (g ∷ [])
          ∙ ap (λ l. answered yielded ++ l) (silent [])
          ∙ append-nil (answered yielded),
      inr (omega (arith, three), now),
      omega (arith, now),
    )
Owes-yielded st n yielded (b ∷ c ∷ bs) o sum = absurd o

module _ (uuid : ℕ → String) (debug : String → String) (client_id : String) where
  settled-Owes :
      (x : CommandProviderOutbound) (n : ℕ) (d : Bool × ℤ)
      → Decided d
      → let out = settled uuid debug client_id x n d in Owes out.1 (left out.0)
  unfolding settled grant
  settled-Owes x n (true, p) six = (six, refl, λ rest. refl)
  settled-Owes x n (false, p) b = b

  respond-Owes :
      (st : StreamState) (r : AxonCommandResult)
      → Owes st []
      → let out = respond uuid debug client_id st r in Owes out.1 (left out.0)
  unfolding respond
  respond-Owes st r b = settled-Owes _ st.drawn (settle st.permits) (settle-Decided st.permits b)

  opening-Owes : (commands : List String) → Owes (opening uuid debug client_id commands).1 []
  unfolding opening
  opening-Owes commands = initial_permits_lem.0

module _ (uuid : ℕ → String) (debug : String → String) (client_id : String)
    (commands : List String) where
  -- At every moment of a run of the two tasks from the first grant on, however the sends, the receives
  -- and the yields are interleaved, the channel has ten results at most, and the stream has answered a
  -- first part of the results, once each, in their order and with what they say, the rest being in the
  -- channel or not yet sent; and the permits that it has granted to the server are at least four more
  -- than those answers, or just three more where a grant of three is what the stream yields next, and
  -- never more than six: the server has room to send, and no more than six commands wait for an answer.
  pub commands_outstanding :
      (results : List AxonCommandResult)
      {t : System AxonCommandResult CommandProviderOutbound StreamState}
      → Reach
          (respond uuid debug client_id)
          (start
            (respond uuid debug client_id)
            (opening uuid debug client_id commands).1
            results
            (opening uuid debug client_id commands).0)
          t
      → (length t.buffer ≤ capacity)
        × ((received : List AxonCommandResult) × (results ≡ received ++ (t.buffer ++ t.pending))
            × (answered t.yielded ≡ map (answer_to debug) received)
            × Margin (length received) t.yielded t.outbox
            × (granted t.yielded ≤ length received + 6))
  unfolding create_output_stream
  commands_outstanding results {t} r =
      let st = (opening uuid debug client_id commands).1 in
      let (bounded, (received, (all, said, vars))) =
        Reach-Received (respond uuid debug client_id) _ results _ r in
      let (answers, low, high) = command_stream_permits uuid debug client_id commands received in
      let (b, sum) = command_stream_balance uuid debug client_id commands received in
      let owed =
        Reach-Outbox (respond uuid debug client_id) Owes (respond-Owes uuid debug client_id)
          yields_owed st results _ (opening-Owes uuid debug client_id commands) r in
      let (told, margin, most) =
        Owes-yielded t.variables (length received) t.yielded t.outbox owed (
          ap granted said
          ∙ sum
          ∙ ap (λ (v : StreamState). length received + pos_part v.permits) (sym vars)) in
      (bounded, (received, all, sym told ∙ ap answered said ∙ answers, margin, most))
