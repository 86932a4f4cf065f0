-- ===== src/CommandWorker/Output/Answers.antt =====
-- What the output stream tells a server of the results of its commands
-- (src/axon_utils/command_worker.rs).
use rusty_dendrite.Prelude.{
  ℕ, String, ◌≡◌, refl, ap₂, Option, none, some, List, [], ◌∷◌, ◌++◌, map, map_option,
}
use rusty_dendrite.Io.{Outcome, done, raised, to_string}
use rusty_dendrite.Messages.{SerializedObject}
use rusty_dendrite.CommandWorker.Protocol.{
  CommandProviderOutbound, CommandResponse, OutboundRequest, subscribe, flow_control,
  command_response,
}
use rusty_dendrite.CommandWorker.Emit.{EmitEventsAndResponse}
use rusty_dendrite.CommandWorker.Worker.{AxonCommandResult}
use rusty_dendrite.CommandWorker.Output.{response_of}

-- What a server learns of a command: its identifier, and the payload or the error.
pub record Answer : Type 0 where
  pub request_identifier : String
  pub payload : Option SerializedObject
  pub error_code : String
  pub error : Option String

abbrev pub answer_of : CommandResponse → Answer
answer_of r = record {
  request_identifier = r.request_identifier;
  payload = r.payload;
  error_code = r.error_code;
  error = map_option (λ e. e.message) r.error_message;
}

abbrev pub answered_by : Option OutboundRequest → List Answer → List Answer
answered_by (some (command_response r)) rest = answer_of r ∷ rest
answered_by (some (flow_control f)) rest = rest
answered_by (some (subscribe c)) rest = rest
answered_by none rest = rest

-- The commands that some output responds to, and how.
abbrev pub answered : List CommandProviderOutbound → List Answer
answered [] = []
answered (out ∷ rest) = answered_by out.request (answered rest)

abbrev pub answer_by : (String → String) → String → Outcome (Option EmitEventsAndResponse) → Answer
answer_by debug id (done none) = record {
  request_identifier = id;
  payload = none;
  error_code = "";
  error = none;
}
answer_by debug id (done (some r)) = record {
  request_identifier = id;
  payload = r.response;
  error_code = "";
  error = none;
}
answer_by debug id (raised e) = record {
  request_identifier = id;
  payload = none;
  error_code = "ERROR";
  error = some (to_string debug e);
}

-- What a server is to learn of a result.
abbrev pub answer_to : (String → String) → AxonCommandResult → Answer
answer_to debug r = answer_by debug r.message_identifier r.result

answer_by-request_identifier :
    (debug : String → String) (id : String) (o : Outcome (Option EmitEventsAndResponse))
    → (answer_by debug id o).request_identifier ≡ id
answer_by-request_identifier debug id (done none) = refl
answer_by-request_identifier debug id (done (some r)) = refl
answer_by-request_identifier debug id (raised e) = refl

pub ids_of_answers :
    (debug : String → String) (results : List AxonCommandResult)
    → map (λ a. a.request_identifier) (map (answer_to debug) results)
      ≡ map (λ r. r.message_identifier) results
ids_of_answers debug [] = refl
ids_of_answers debug (r ∷ results) =
    ap₂ (λ k l. k ∷ l) (answer_by-request_identifier debug r.message_identifier r.result)
      (ids_of_answers debug results)

answered_by-append :
    (o : Option OutboundRequest) (xs ys : List Answer)
    → answered_by o (xs ++ ys) ≡ answered_by o xs ++ ys
answered_by-append (some (command_response r)) xs ys = refl
answered_by-append (some (flow_control f)) xs ys = refl
answered_by-append (some (subscribe c)) xs ys = refl
answered_by-append none xs ys = refl

pub answered-append :
    (xs ys : List CommandProviderOutbound) → answered (xs ++ ys) ≡ answered xs ++ answered ys
answered-append [] ys = refl
answered-append (x ∷ xs) ys =
    rw (answered-append xs ys) (answered_by-append x.request (answered xs) (answered ys))

module _ (uuid : ℕ → String) (debug : String → String) (client_id : String) where
  pub answer_of-response_of :
      (a b : String) (o : Outcome (Option EmitEventsAndResponse))
      → answer_of (response_of uuid debug client_id a b o) ≡ answer_by debug b o
  unfolding response_of
  answer_of-response_of a b (done none) = refl
  answer_of-response_of a b (done (some r)) = refl
  answer_of-response_of a b (raised e) = refl
