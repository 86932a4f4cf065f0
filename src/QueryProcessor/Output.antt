-- ===== src/QueryProcessor/Output.antt =====
-- `create_output_stream` of src/axon_utils/query_processor.rs. The n-th call of `Uuid::new_v4` in the
-- stream gives `uuid n`.
pub mod Replies
pub mod Delivery
pub mod Outstanding
pub mod Identifiers
use rusty_dendrite.Prelude.{
  ℕ, ◌+◌, String, Bool, true, false, Option, none, some, List, [], ◌∷◌, ◌++◌,
}
use rusty_dendrite.Prelude.Int.{ℤ}
use rusty_dendrite.Messages.{SerializedObject, ErrorMessage, FlowControl}
use rusty_dendrite.Channel.{drain}
use rusty_dendrite.Permits.{initial_permits, permits_batch_size, settle}
use rusty_dendrite.QueryProcessor.{AxonQueryResult}

pub record QuerySubscription : Type 0 where
  pub message_id : String
  pub query : String
  pub result_name : String
  pub component_name : String
  pub client_id : String

pub record QueryResponse : Type 0 where
  pub message_identifier : String
  pub error_code : String
  pub error_message : Option ErrorMessage
  pub payload : Option SerializedObject
  pub request_identifier : String

pub record QueryComplete : Type 0 where
  pub message_id : String
  pub request_id : String

-- The requests of `QueryProviderOutbound` that the program makes.
pub data OutboundRequest : Type 0 where
  subscribe : QuerySubscription → OutboundRequest
  flow_control : FlowControl → OutboundRequest
  query_response : QueryResponse → OutboundRequest
  query_complete : QueryComplete → OutboundRequest

pub record QueryProviderOutbound : Type 0 where
  pub instruction_id : String
  pub request : Option OutboundRequest

-- The variables of the stream between two messages: the identifiers drawn, and the balance.
pub record StreamState : Type 0 where
  pub drawn : ℕ
  pub permits : ℤ

module _ (uuid : ℕ → String) (client_id : String) where
  subscription : ℕ → String → QueryProviderOutbound
  subscription n query_name = record {
    instruction_id = uuid (n + 1);
    request = some (
        subscribe (record {
          message_id = uuid n;
          query = query_name;
          result_name = "*";
          client_id = client_id;
          component_name = client_id;
        }));
  }

  subscriptions : ℕ → List String → List QueryProviderOutbound
  unfolding subscription
  subscriptions n [] = []
  subscriptions n (query_name ∷ rest) = subscription n query_name ∷ subscriptions (n + 2) rest

  -- The number of identifiers that the subscriptions draw.
  drawn_by : ℕ → List String → ℕ
  drawn_by n [] = n
  drawn_by n (query_name ∷ rest) = drawn_by (n + 2) rest

  grant : ℕ → ℤ → QueryProviderOutbound
  grant n permits = record {
    instruction_id = uuid n;
    request = some (flow_control (record { client_id = client_id; permits = permits }));
  }

  response : ℕ → AxonQueryResult → QueryProviderOutbound
  response n r = record {
    instruction_id = uuid (n + 1);
    request = some (
        query_response (record {
          message_identifier = uuid n;
          error_code = "";
          error_message = none;
          payload = r.result;
          request_identifier = r.message_identifier;
        }));
  }

  complete : ℕ → AxonQueryResult → QueryProviderOutbound
  complete n r = record {
    instruction_id = uuid (n + 1);
    request =
        some (query_complete (record { message_id = uuid n; request_id = r.message_identifier }));
  }

  -- What is yielded for one result, from the decision of the flow control.
  settled : ℕ → AxonQueryResult → Bool × ℤ → List QueryProviderOutbound × StreamState
  settled n r (true, permits) = (
    response n r ∷ complete (n + 2) r ∷ grant (n + 4) permits_batch_size ∷ [],
    record { drawn = n + 5; permits = permits },
  )
  settled n r (false, permits) =
      (response n r ∷ complete (n + 2) r ∷ [], record { drawn = n + 4; permits = permits })

  -- One round of the loop over the results: what it yields, one after the other (the steps of Channel
  -- are between these), and the variables at its end.
  pub respond : StreamState → AxonQueryResult → List QueryProviderOutbound × StreamState
  respond st r = settled st.drawn r (settle st.permits)

  -- What is yielded before the first result, and the variables then.
  pub opening : List String → List QueryProviderOutbound × StreamState
  opening queries = (
    subscriptions 0 queries ++ grant (drawn_by 0 queries) initial_permits ∷ [],
    record { drawn = drawn_by 0 queries + 1; permits = initial_permits },
  )

  -- All that is yielded for some results.
  pub create_output_stream : List String → List AxonQueryResult → List QueryProviderOutbound
  create_output_stream queries results =
      (opening queries).0 ++ (drain respond (opening queries).1 results).0
