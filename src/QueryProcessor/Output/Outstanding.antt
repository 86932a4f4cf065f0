-- ===== src/QueryProcessor/Output/Outstanding.antt =====
-- The queries that are outstanding while the query processor and its output stream run as two tasks
-- (src/axon_utils/query_processor.rs).
use rusty_dendrite.Prelude.{
  ℕ, ◌+◌, ◌≤◌, String, ◌≡◌, refl, sym, ap, ◌∙◌, ◌⊎◌, inl, inr, Bool, true, false, List, [], ◌∷◌,
  ◌++◌, append-nil, arith, length,
}
use rusty_dendrite.Prelude.Int.{ℤ, pos, pos_part}
use rusty_dendrite.Channel.{System, Reach, start, capacity, left}
use rusty_dendrite.Channel.Received.{Reach-Received, Reach-Outbox}
use rusty_dendrite.Permits.{
  initial_permits_lem, settle, Balanced, Balanced-bounds, Decided, settle-Decided,
}
use rusty_dendrite.QueryProcessor.{AxonQueryResult}
use rusty_dendrite.QueryProcessor.Output.{
  StreamState, QueryProviderOutbound, settled, grant, complete, respond, opening,
  create_output_stream,
}
use rusty_dendrite.QueryProcessor.Output.Replies.{
  Told, completes, told, told_by, told-append, answers_to, permits_of, granted, granted-append,
  query_stream_permits, query_stream_balance,
}

-- A completion, and a grant by which the balance is six.
abbrev IsCompletion : QueryProviderOutbound → Type 0
IsCompletion b =
    (permits_of b.request ≡ 0)
    × ((id : String) × ((rest : List Told) → told_by b.request rest ≡ completes id ∷ rest))

abbrev IsGrant : StreamState → QueryProviderOutbound → Type 0
IsGrant st b =
    (st.permits ≡ pos 6)
    × (permits_of b.request ≡ 3)
    × ((rest : List Told) → told_by b.request rest ≡ rest)

-- What the stream has still to yield for a result that it has responded to.
abbrev Owes : StreamState → List QueryProviderOutbound → Type 0
Owes st [] = Balanced st.permits
Owes st (b ∷ []) = (IsCompletion b × Balanced st.permits) ⊎ IsGrant st b
Owes st (b ∷ c ∷ []) = IsCompletion b × IsGrant st c
Owes st (b ∷ c ∷ d ∷ bs) = ⊥

yields_owed :
    (st : StreamState) (b : QueryProviderOutbound) (bs : List QueryProviderOutbound)
    → Owes st (b ∷ bs)
    → Owes st bs
yields_owed st b [] (inl (_, balanced)) = balanced
yields_owed st b [] (inr (six, _, _)) = inr (inr six)
yields_owed st b (c ∷ []) (_, granting) = inr granting
yields_owed st b (c ∷ d ∷ bs) o = absurd o

-- The answers are given, but for the completion of the last one where it is still to be yielded.
abbrev pub Answers : List Told → List Told → Type 0
Answers said answers = (said ≡ answers) ⊎ ((id : String) × (said ++ completes id ∷ [] ≡ answers))

-- The margin of the permits over the results, before and after a grant that is still to be yielded.
abbrev pub Margin : ℕ → List QueryProviderOutbound → List QueryProviderOutbound → Type 0
Margin n yielded outbox =
    (n + 4 ≤ granted yielded) ⊎ ((granted outbox ≡ 3) × (granted yielded ≡ n + 3))

-- What has been told, from what has been told and is still owed.
Owes-told :
    (st : StreamState) (yielded outbox : List QueryProviderOutbound) (answers : List Told)
    → Owes st outbox
    → told (yielded ++ outbox) ≡ answers
    → Answers (told yielded) answers
Owes-told st yielded [] answers b e = inl (ap told (sym (append-nil yielded)) ∙ e)
Owes-told st yielded (b ∷ []) answers (inl ((_, (id, completing)), _)) e =
    inr (
      id,
      ap (λ l. told yielded ++ l) (sym (completing [])) ∙ sym (told-append yielded (b ∷ [])) ∙ e,
    )
Owes-told st yielded (g ∷ []) answers (inr (_, _, silent)) e = inl (
    sym (append-nil (told yielded))
    ∙ ap (λ l. told yielded ++ l) (sym (silent []))
    ∙ sym (told-append yielded (g ∷ []))
    ∙ e)
Owes-told st yielded (b ∷ g ∷ []) answers ((_, (id, completing)), (_, _, silent)) e = inr (
  id,
  ap (λ l. told yielded ++ l) (sym (completing []) ∙ ap (told_by b.request) (sym (silent [])))
      ∙ sym (told-append yielded (b ∷ g ∷ []))
      ∙ e,
)
Owes-told st yielded (b ∷ c ∷ d ∷ bs) answers o e = absurd o

-- The permits that have been granted, from those that are granted and still owed.
Owes-granted :
    (st : StreamState) (n : ℕ) (yielded outbox : List QueryProviderOutbound)
    → Owes st outbox
    → granted (yielded ++ outbox) ≡ n + pos_part st.permits
    → Margin n yielded outbox × (granted yielded ≤ n + 6)
Owes-granted st n yielded [] b sum =
    let bounds = Balanced-bounds st.permits b in
    let all = granted-append yielded [] in
    (inl (omega (arith, bounds, sum, all)), omega (arith, bounds, sum, all))
Owes-granted st n yielded (b ∷ []) (inl ((free, _), balanced)) sum =
    let bounds = Balanced-bounds st.permits balanced in
    let both = granted-append yielded (b ∷ []) in
    (inl (omega (arith, bounds, sum, both, free)), omega (arith, bounds, sum, both, free))
Owes-granted st n yielded (g ∷ []) (inr (six, three, _)) sum =
    let both = granted-append yielded (g ∷ []) in
    let balance : pos_part st.permits ≡ 6 = ap pos_part six in
    let now : granted yielded ≡ n + 3 = omega (arith, both, sum, balance, three) in
    (inr (omega (arith, three), now), omega (arith, now))
Owes-granted st n yielded (b ∷ g ∷ []) ((free, _), (six, three, _)) sum =
    let both = granted-append yielded (b ∷ g ∷ []) in
    let balance : pos_part st.permits ≡ 6 = ap pos_part six in
    let now : granted yielded ≡ n + 3 = omega (arith, both, sum, balance, three, free) in
    (inr (omega (arith, three, free), now), omega (arith, now))
Owes-granted st n yielded (b ∷ c ∷ d ∷ bs) o sum = absurd o

module _ (uuid : ℕ → String) (client_id : String) where
  settled-Owes :
      (n : ℕ) (r : AxonQueryResult) (d : Bool × ℤ)
      → Decided d
      → let out = settled uuid client_id n r d in Owes out.1 (left out.0)
  unfolding settled grant complete
  settled-Owes n r (true, p) six =
      ((refl, (r.message_identifier, λ rest. refl)), (six, refl, λ rest. refl))
  settled-Owes n r (false, p) b = inl ((refl, (r.message_identifier, λ rest. refl)), b)

  respond-Owes :
      (st : StreamState) (r : AxonQueryResult)
      → Owes st []
      → let out = respond uuid client_id st r in Owes out.1 (left out.0)
  unfolding respond
  respond-Owes st r b = settled-Owes st.drawn r (settle st.permits) (settle-Decided st.permits b)

  opening-Owes : (queries : List String) → Owes (opening uuid client_id queries).1 []
  unfolding opening
  opening-Owes queries = initial_permits_lem.0

module _ (uuid : ℕ → String) (client_id : String) (queries : List String) where
  -- At every moment of a run of the two tasks from the first grant on, however the sends, the receives
  -- and the yields are interleaved, the channel has ten results at most, and the stream has answered a
  -- first part of the results, in their order, each by its payload and then by a completion, except
  -- that the completion of the last one may be still to be yielded, the rest being in the channel or
  -- not yet sent; and the permits that it has granted to the server are at least four more than the
  -- results of that first part, or just three more where a grant of three is still to be yielded for
  -- the last one, and never more than six.
  pub queries_outstanding :
      (results : List AxonQueryResult)
      {t : System AxonQueryResult QueryProviderOutbound StreamState}
      → Reach
          (respond uuid client_id)
          (start
            (respond uuid client_id)
            (opening uuid client_id queries).1
            results
            (opening uuid client_id queries).0)
          t
      → (length t.buffer ≤ capacity)
        × ((received : List AxonQueryResult) × (results ≡ received ++ (t.buffer ++ t.pending))
            × Answers (told t.yielded) (answers_to received)
            × Margin (length received) t.yielded t.outbox
            × (granted t.yielded ≤ length received + 6))
  unfolding create_output_stream
  queries_outstanding results {t} r =
      let (bounded, (received, (all, said, vars))) =
        Reach-Received (respond uuid client_id) _ results _ r in
      let (answers, low, high) = query_stream_permits uuid client_id queries received in
      let (b, sum) = query_stream_balance uuid client_id queries received in
      let owed =
        Reach-Outbox (respond uuid client_id) Owes (respond-Owes uuid client_id) yields_owed
          (opening uuid client_id queries).1 results _ (opening-Owes uuid client_id queries) r in
      let (margin, most) = Owes-granted t.variables (length received) t.yielded t.outbox owed (
        ap granted said
        ∙ sum
        ∙ ap (λ (v : StreamState). length received + pos_part v.permits) (sym vars)) in
      (
        bounded,
        (
          received,
          all,
          Owes-told t.variables t.yielded t.outbox (answers_to received) owed
              (ap told said ∙ answers),
          margin,
          most,
        ),
      )
