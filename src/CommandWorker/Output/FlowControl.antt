-- ===== src/CommandWorker/Output/FlowControl.antt =====
-- The permits that the output stream grants, and the responses that it sends (src/axon_utils/command_worker.rs).
use rusty_dendrite.Prelude.{
  ℕ, ◌+◌, ◌≤◌, String, ◌≡◌, refl, sym, subst, ap, ap₂, ◌∙◌, Bool, true, false, Option, none, some,
  List, [], ◌∷◌, ◌++◌, map, arith, length,
}
use rusty_dendrite.Prelude.Int.{ℤ, pos_part}
use rusty_dendrite.Channel.{drain}
use rusty_dendrite.Permits.{
  initial_permits, settle, Balanced, granted_by, settle-Balanced, Balanced-bounds,
  initial_permits_lem,
}
use rusty_dendrite.CommandWorker.Protocol.{
  CommandProviderOutbound, CommandResponse, OutboundRequest, subscribe, flow_control,
  command_response,
}
use rusty_dendrite.CommandWorker.Worker.{AxonCommandResult}
use rusty_dendrite.CommandWorker.Output.Answers.{
  answered, answer_of, answered-append, answer_of-response_of, answer_to,
}
use rusty_dendrite.CommandWorker.Output.{
  StreamState, subscriptions, grant, response_of, settled, respond, opening, create_output_stream,
}

abbrev pub permits_of : Option OutboundRequest → ℕ
permits_of (some (flow_control f)) = pos_part f.permits
permits_of (some (subscribe c)) = 0
permits_of (some (command_response r)) = 0
permits_of none = 0

-- The permits that some output grants to the server.
abbrev pub granted : List CommandProviderOutbound → ℕ
granted [] = 0
granted (out ∷ rest) = permits_of out.request + granted rest

pub granted-append :
    (xs ys : List CommandProviderOutbound) → granted (xs ++ ys) ≡ granted xs + granted ys
granted-append [] ys = omega arith
granted-append (x ∷ xs) ys = omega (arith, granted-append xs ys)

module _ (uuid : ℕ → String) (debug : String → String) (client_id : String) where
  settled-permits :
      (id : String) (x : CommandResponse) (n : ℕ) (d : Bool × ℤ)
      → let out =
          settled uuid debug client_id
            (record { instruction_id = id; request = some (command_response x) })
            n
            d in
        (out.1.permits ≡ d.1)
        × (granted out.0 ≡ granted_by d.0)
        × (answered out.0 ≡ answer_of x ∷ [])
  unfolding settled grant
  settled-permits id x n (true, p) = (refl, omega arith, refl)
  settled-permits id x n (false, p) = (refl, omega arith, refl)

  respond-permits :
      (st : StreamState) (r : AxonCommandResult)
      → Balanced st.permits
      → Balanced (respond uuid debug client_id st r).1.permits
        × (granted (respond uuid debug client_id st r).0 + pos_part st.permits
            ≡ pos_part (respond uuid debug client_id st r).1.permits + 1)
        × (answered (respond uuid debug client_id st r).0 ≡ answer_to debug r ∷ [])
  unfolding respond
  respond-permits st r b =
      let x = response_of uuid debug client_id (uuid st.drawn) r.message_identifier r.result in
      let (kept, given, ids) =
        settled-permits (uuid (st.drawn + 1)) x st.drawn (settle st.permits) in
      let (b', e) = settle-Balanced st.permits b in
      (
        subst Balanced (sym kept) b',
        omega (arith, given, e, ap pos_part kept),
        ids
            ∙ ap (λ l. l ∷ [])
                (answer_of-response_of uuid debug client_id _ r.message_identifier r.result),
      )

  drain-permits :
      (st : StreamState) (results : List AxonCommandResult)
      → Balanced st.permits
      → let out = drain (respond uuid debug client_id) st results in
        Balanced out.1.permits
        × (granted out.0 + pos_part st.permits ≡ pos_part out.1.permits + length results)
        × (answered out.0 ≡ map (answer_to debug) results)
  unfolding drain
  drain-permits st [] b = (b, omega arith, refl)
  drain-permits st (r ∷ results) b =
      let (b', e, ids) = respond-permits st r b in
      let (b'', e', ids') = drain-permits (respond uuid debug client_id st r).1 results b' in
      (
        b'',
        omega (
          arith,
          e,
          e',
          granted-append (respond uuid debug client_id st r).0
              (drain (respond uuid debug client_id) (respond uuid debug client_id st r).1
                results).0,
        ),
        answered-append (respond uuid debug client_id st r).0 _ ∙ ap₂ (λ k l. k ++ l) ids ids',
      )

  granted-subscriptions :
      (n : ℕ) (commands : List String)
      → (granted (subscriptions uuid debug client_id n commands) ≡ 0)
        × (answered (subscriptions uuid debug client_id n commands) ≡ [])
  unfolding subscriptions
  granted-subscriptions n [] = (refl, refl)
  granted-subscriptions n (c ∷ commands) = (
    omega (arith, (granted-subscriptions (n + 2) commands).0),
    (granted-subscriptions (n + 2) commands).1,
  )

  opening-permits :
      (commands : List String)
      → let out = opening uuid debug client_id commands in
        (granted out.0 ≡ 6) × (answered out.0 ≡ []) × (out.1.permits ≡ initial_permits)
  unfolding opening grant
  opening-permits commands = (
    omega (
      arith,
      granted-append (subscriptions uuid debug client_id 0 commands) _,
      (granted-subscriptions 0 commands).0,
      initial_permits_lem.1,
    ),
    answered-append (subscriptions uuid debug client_id 0 commands) _
        ∙ ap (λ l. l ++ []) (granted-subscriptions 0 commands).1,
    refl,
  )

  -- The permits that are granted are the balance more than the results.
  pub command_stream_balance :
      (commands : List String) (results : List AxonCommandResult)
      → let st = (opening uuid debug client_id commands).1 in
        let balance = (drain (respond uuid debug client_id) st results).1.permits in
        Balanced balance
        × (granted (create_output_stream uuid debug client_id commands results)
            ≡ length results + pos_part balance)
  unfolding create_output_stream
  command_stream_balance commands results =
      let (given, none_yet, start) = opening-permits commands in
      let st = (opening uuid debug client_id commands).1 in
      let (b, e, ids) =
        drain-permits st results (subst Balanced (sym start) initial_permits_lem.0) in
      let total =
        granted-append (opening uuid debug client_id commands).0
          (drain (respond uuid debug client_id) st results).0 in
      (b, omega (arith, given, e, total, initial_permits_lem.1, ap pos_part start))

  -- The stream answers each result that it receives once and in order: under the identifier of the
  -- command, with the payload of the response where the handler has returned one, with no payload
  -- where it has returned none, and with the text of the error and the code `ERROR` where it has
  -- failed; and after each answer the permits that it has granted to the server are at least four
  -- and at most six more than the commands that it has answered: the server always has room to
  -- send, and never more than six commands are outstanding.
  pub command_stream_permits :
      (commands : List String) (results : List AxonCommandResult)
      → let out = create_output_stream uuid debug client_id commands results in
        (answered out ≡ map (answer_to debug) results)
        × (length results + 4 ≤ granted out)
        × (granted out ≤ length results + 6)
  unfolding create_output_stream
  command_stream_permits commands results =
      let (given, none_yet, start) = opening-permits commands in
      let st = (opening uuid debug client_id commands).1 in
      let (b, e, ids) =
        drain-permits st results (subst Balanced (sym start) initial_permits_lem.0) in
      let bounds = Balanced-bounds _ b in
      let total =
        granted-append (opening uuid debug client_id commands).0
          (drain (respond uuid debug client_id) st results).0 in
      (
        answered-append (opening uuid debug client_id commands).0 _
            ∙ ap₂ (λ k l. k ++ l) none_yet ids,
        omega (arith, given, e, bounds, total, initial_permits_lem.1, ap pos_part start),
        omega (arith, given, e, bounds, total, initial_permits_lem.1, ap pos_part start),
      )
