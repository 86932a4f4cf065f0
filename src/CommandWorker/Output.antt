-- ===== src/CommandWorker/Output.antt =====
-- `create_output_stream` of src/axon_utils/command_worker.rs. The n-th call of `Uuid::new_v4` in the
-- stream gives `uuid n`.
pub mod Answers
pub mod FlowControl
pub mod Delivery
pub mod Outstanding
pub mod Identifiers
use rusty_dendrite.Prelude.{
  ℕ, ◌+◌, String, Bool, true, false, Option, none, some, List, [], ◌∷◌, ◌++◌, map_option, flatten,
}
use rusty_dendrite.Prelude.Int.{ℤ, pos}
use rusty_dendrite.Io.{Outcome, done, raised, to_string}
use rusty_dendrite.Channel.{drain}
use rusty_dendrite.Permits.{initial_permits, permits_batch_size, settle}
use rusty_dendrite.CommandWorker.Protocol.{
  CommandResponse, CommandProviderOutbound, subscribe, flow_control, command_response,
}
use rusty_dendrite.CommandWorker.Emit.{EmitEventsAndResponse}
use rusty_dendrite.CommandWorker.Worker.{AxonCommandResult}

-- The variables of the stream between two messages: the identifiers drawn, and the balance.
pub record StreamState : Type 0 where
  pub drawn : ℕ
  pub permits : ℤ

module _ (uuid : ℕ → String) (debug : String → String) (client_id : String) where
  subscription : ℕ → String → CommandProviderOutbound
  subscription n command_name = record {
    instruction_id = uuid (n + 1);
    request = some (
        subscribe (record {
          message_id = uuid n;
          command = command_name;
          client_id = client_id;
          component_name = client_id;
          load_factor = pos 100;
        }));
  }

  subscriptions : ℕ → List String → List CommandProviderOutbound
  unfolding subscription
  subscriptions n [] = []
  subscriptions n (command_name ∷ rest) = subscription n command_name ∷ subscriptions (n + 2) rest

  -- The number of identifiers that the subscriptions draw.
  drawn_by : ℕ → List String → ℕ
  drawn_by n [] = n
  drawn_by n (command_name ∷ rest) = drawn_by (n + 2) rest

  unfoldable pub grant : ℕ → ℤ → CommandProviderOutbound
  grant n permits = record {
    instruction_id = uuid n;
    request = some (flow_control (record { client_id = client_id; permits = permits }));
  }

  unfoldable pub response_of :
      String → String → Outcome (Option EmitEventsAndResponse) → CommandResponse
  response_of response_id request_id (done result) = record {
    message_identifier = response_id;
    request_identifier = request_id;
    payload = flatten (map_option (λ r. r.response) result);
    error_code = "";
    error_message = none;
  }
  response_of response_id request_id (raised e) = record {
    message_identifier = response_id;
    request_identifier = request_id;
    payload = none;
    error_code = "ERROR";
    error_message =
        some (record {
          message = to_string debug e;
          location = "";
          details = [];
          error_code = "ERROR";
        });
  }

  -- What is yielded for one result, from the decision of the flow control.
  unfoldable pub settled :
      CommandProviderOutbound → ℕ → Bool × ℤ → List CommandProviderOutbound × StreamState
  settled response n (true, permits) = (
    response ∷ grant (n + 2) permits_batch_size ∷ [],
    record { drawn = n + 3; permits = permits },
  )
  settled response n (false, permits) = (response ∷ [], record { drawn = n + 2; permits = permits })

  -- One round of the loop over the results: what it yields, one after the other (the steps of Channel
  -- are between these), and the variables at its end.
  unfoldable pub respond :
      StreamState → AxonCommandResult → List CommandProviderOutbound × StreamState
  unfolding grant response_of settled
  respond st r =
      settled
        (record {
          instruction_id = uuid (st.drawn + 1);
          request =
              some (command_response (response_of (uuid st.drawn) r.message_identifier r.result));
        })
        st.drawn (settle st.permits)

  -- What is yielded before the first result, and the variables then.
  unfoldable pub opening : List String → List CommandProviderOutbound × StreamState
  unfolding subscriptions drawn_by grant
  opening commands = (
    subscriptions 0 commands ++ grant (drawn_by 0 commands) initial_permits ∷ [],
    record { drawn = drawn_by 0 commands + 1; permits = initial_permits },
  )

  -- All that is yielded for some results.
  unfoldable pub create_output_stream :
      List String → List AxonCommandResult → List CommandProviderOutbound
  create_output_stream commands results =
      (opening commands).0 ++ (drain respond (opening commands).1 results).0
