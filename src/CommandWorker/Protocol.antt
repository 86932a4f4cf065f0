-- ===== src/CommandWorker/Protocol.antt =====
-- The messages of proto/axon_server/command.proto that the command worker exchanges. The maps of
-- meta data and the processing instructions, which are always empty, are left out.
use rusty_dendrite.Prelude.{String, Option}
use rusty_dendrite.Prelude.Int.{ℤ}
use rusty_dendrite.Messages.{SerializedObject, ErrorMessage, FlowControl}

pub record Command : Type 0 where
  pub message_identifier : String
  pub name : String
  pub timestamp : ℤ
  pub payload : Option SerializedObject
  pub client_id : String
  pub component_name : String

pub record CommandSubscription : Type 0 where
  pub message_id : String
  pub command : String
  pub component_name : String
  pub client_id : String
  pub load_factor : ℤ

pub record CommandResponse : Type 0 where
  pub message_identifier : String
  pub error_code : String
  pub error_message : Option ErrorMessage
  pub payload : Option SerializedObject
  pub request_identifier : String

-- The requests of `CommandProviderOutbound` that the program makes.
pub data OutboundRequest : Type 0 where
  subscribe : CommandSubscription → OutboundRequest
  flow_control : FlowControl → OutboundRequest
  command_response : CommandResponse → OutboundRequest

pub record CommandProviderOutbound : Type 0 where
  pub instruction_id : String
  pub request : Option OutboundRequest

-- An acknowledgement is not read by the program.
pub data InboundRequest : Type 0 where
  ack : InboundRequest
  command : Command → InboundRequest

pub record CommandProviderInbound : Type 0 where
  pub instruction_id : String
  pub request : Option InboundRequest
