-- ===== src/QueryProcessor/Output/Replies.antt =====
-- The permits and the responses of the output stream (src/axon_utils/query_processor.rs).
use rusty_dendrite.Prelude.{
  ℕ, ◌+◌, ◌≤◌, String, ◌≡◌, refl, sym, subst, ap, ap₂, ◌∙◌, Bool, true, false, Option, none, some,
  List, [], ◌∷◌, ◌++◌, arith, length,
}
use rusty_dendrite.Prelude.Int.{ℤ, pos_part}
use rusty_dendrite.Messages.{SerializedObject}
use rusty_dendrite.Channel.{drain}
use rusty_dendrite.Permits.{
  initial_permits, settle, Balanced, granted_by, settle-Balanced, Balanced-bounds,
  initial_permits_lem,
}
use rusty_dendrite.QueryProcessor.{AxonQueryResult}
use rusty_dendrite.QueryProcessor.Output.{
  StreamState, QueryProviderOutbound, OutboundRequest, subscribe, flow_control, query_response,
  query_complete, subscriptions, settled, grant, response, complete, respond, opening,
  create_output_stream,
}

abbrev pub permits_of : Option OutboundRequest → ℕ
permits_of (some (flow_control f)) = pos_part f.permits
permits_of (some (subscribe c)) = 0
permits_of (some (query_response r)) = 0
permits_of (some (query_complete r)) = 0
permits_of none = 0

-- The permits that some output grants to the server.
abbrev pub granted : List QueryProviderOutbound → ℕ
granted [] = 0
granted (out ∷ rest) = permits_of out.request + granted rest

-- What a server is told about its queries.
pub data Told : Type 0 where
  responds : String → Option SerializedObject → Told
  completes : String → Told

abbrev pub told_by : Option OutboundRequest → List Told → List Told
told_by (some (query_response r)) rest = responds r.request_identifier r.payload ∷ rest
told_by (some (query_complete c)) rest = completes c.request_id ∷ rest
told_by (some (flow_control f)) rest = rest
told_by (some (subscribe c)) rest = rest
told_by none rest = rest

abbrev pub told : List QueryProviderOutbound → List Told
told [] = []
told (out ∷ rest) = told_by out.request (told rest)

-- What a server is to be told: for each result its payload, and then that this was all.
abbrev pub answers_to : List AxonQueryResult → List Told
answers_to [] = []
answers_to (r ∷ results) =
    responds r.message_identifier r.result ∷ completes r.message_identifier ∷ answers_to results

pub granted-append :
    (xs ys : List QueryProviderOutbound) → granted (xs ++ ys) ≡ granted xs + granted ys
granted-append [] ys = omega arith
granted-append (x ∷ xs) ys = omega (arith, granted-append xs ys)

told_by-append :
    (o : Option OutboundRequest) (xs ys : List Told) → told_by o (xs ++ ys) ≡ told_by o xs ++ ys
told_by-append (some (query_response r)) xs ys = refl
told_by-append (some (query_complete r)) xs ys = refl
told_by-append (some (flow_control f)) xs ys = refl
told_by-append (some (subscribe c)) xs ys = refl
told_by-append none xs ys = refl

pub told-append : (xs ys : List QueryProviderOutbound) → told (xs ++ ys) ≡ told xs ++ told ys
told-append [] ys = refl
told-append (x ∷ xs) ys = rw (told-append xs ys) (told_by-append x.request (told xs) (told ys))

module _ (uuid : ℕ → String) (client_id : String) where
  settled-permits :
      (n : ℕ) (r : AxonQueryResult) (d : Bool × ℤ)
      → let out = settled uuid client_id n r d in
        (out.1.permits ≡ d.1)
        × (granted out.0 ≡ granted_by d.0)
        × (told out.0 ≡ answers_to (r ∷ []))
  unfolding settled grant response complete
  settled-permits n r (true, p) = (refl, omega arith, refl)
  settled-permits n r (false, p) = (refl, omega arith, refl)

  respond-permits :
      (st : StreamState) (r : AxonQueryResult)
      → Balanced st.permits
      → let out = respond uuid client_id st r in
        Balanced out.1.permits
        × (granted out.0 + pos_part st.permits ≡ pos_part out.1.permits + 1)
        × (told out.0 ≡ answers_to (r ∷ []))
  unfolding respond
  respond-permits st r b =
      let (kept, given, said) = settled-permits st.drawn r (settle st.permits) in
      let (b', e) = settle-Balanced st.permits b in
      (subst Balanced (sym kept) b', omega (arith, given, e, ap pos_part kept), said)

  drain-permits :
      (st : StreamState) (results : List AxonQueryResult)
      → Balanced st.permits
      → let out = drain (respond uuid client_id) st results in
        Balanced out.1.permits
        × (granted out.0 + pos_part st.permits ≡ pos_part out.1.permits + length results)
        × (told out.0 ≡ answers_to results)
  unfolding drain
  drain-permits st [] b = (b, omega arith, refl)
  drain-permits st (r ∷ results) b =
      let first = respond uuid client_id st r in
      let (b', e, said) = respond-permits st r b in
      let (b'', e', said') = drain-permits first.1 results b' in
      (
        b'',
        omega (
          arith,
          e,
          e',
          granted-append first.0 (drain (respond uuid client_id) first.1 results).0,
        ),
        told-append first.0 _ ∙ ap₂ (λ k l. k ++ l) said said',
      )

  granted-subscriptions :
      (n : ℕ) (queries : List String)
      → (granted (subscriptions uuid client_id n queries) ≡ 0)
        × (told (subscriptions uuid client_id n queries) ≡ [])
  unfolding subscriptions
  granted-subscriptions n [] = (refl, refl)
  granted-subscriptions n (c ∷ queries) = (
    omega (arith, (granted-subscriptions (n + 2) queries).0),
    (granted-subscriptions (n + 2) queries).1,
  )

  opening-permits :
      (queries : List String)
      → let out = opening uuid client_id queries in
        (granted out.0 ≡ 6) × (told out.0 ≡ []) × (out.1.permits ≡ initial_permits)
  unfolding opening grant
  opening-permits queries = (
    omega (
      arith,
      granted-append (subscriptions uuid client_id 0 queries) _,
      (granted-subscriptions 0 queries).0,
      initial_permits_lem.1,
    ),
    told-append (subscriptions uuid client_id 0 queries) _
        ∙ ap (λ l. l ++ []) (granted-subscriptions 0 queries).1,
    refl,
  )

  -- The permits that are granted are the balance more than the results.
  pub query_stream_balance :
      (queries : List String) (results : List AxonQueryResult)
      → let st = (opening uuid client_id queries).1 in
        let balance = (drain (respond uuid client_id) st results).1.permits in
        Balanced balance
        × (granted (create_output_stream uuid client_id queries results)
            ≡ length results + pos_part balance)
  unfolding create_output_stream
  query_stream_balance queries results =
      let (given, none_yet, start) = opening-permits queries in
      let st = (opening uuid client_id queries).1 in
      let (b, e, said) =
        drain-permits st results (subst Balanced (sym start) initial_permits_lem.0) in
      let total =
        granted-append (opening uuid client_id queries).0
          (drain (respond uuid client_id) st results).0 in
      (b, omega (arith, given, e, total, initial_permits_lem.1, ap pos_part start))

  -- The stream answers each result that it receives with its payload and then with a completion, in
  -- order, both under the identifier of the query; and after each result the permits that it has
  -- granted to the server are at least four and at most six more than the queries that it has
  -- answered.
  pub query_stream_permits :
      (queries : List String) (results : List AxonQueryResult)
      → let out = create_output_stream uuid client_id queries results in
        (told out ≡ answers_to results)
        × (length results + 4 ≤ granted out)
        × (granted out ≤ length results + 6)
  unfolding create_output_stream
  query_stream_permits queries results =
      let (given, none_yet, start) = opening-permits queries in
      let st = (opening uuid client_id queries).1 in
      let (b, e, said) =
        drain-permits st results (subst Balanced (sym start) initial_permits_lem.0) in
      let bounds = Balanced-bounds _ b in
      let sum =
        granted-append (opening uuid client_id queries).0
          (drain (respond uuid client_id) st results).0 in
      let initial = ap pos_part start in
      (
        told-append (opening uuid client_id queries).0 _ ∙ ap₂ (λ k l. k ++ l) none_yet said,
        omega (arith, sum, given, e, bounds, initial, initial_permits_lem.1),
        omega (arith, sum, given, e, bounds, initial, initial_permits_lem.1),
      )
