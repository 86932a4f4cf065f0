-- ===== src/Messages.antt =====
-- Messages that several services exchange: proto/axon_server/common.proto, and `axon_serialize` of
-- src/axon_utils/mod.rs.
use rusty_dendrite.Prelude.{ℕ, String, List}
use rusty_dendrite.Prelude.Int.{ℤ}
use rusty_dendrite.Io.{Result, ok, err, panicked}

-- A `Vec<u8>`.
abbrev pub Bytes : Type 0
Bytes = List ℕ

pub record SerializedObject : Type 0 where
  pub type : String
  pub revision : String
  pub bytes : Bytes

pub record ErrorMessage : Type 0 where
  pub message : String
  pub location : String
  pub details : List String
  pub error_code : String

pub record FlowControl : Type 0 where
  pub client_id : String
  pub permits : ℤ

-- What `prost::Message` gives for a type of messages.
pub record Codec (T : Type 0) : Type 0 where
  pub encode : T → Result Bytes
  pub decode : Bytes → Result T

serialized : String → Result Bytes → Result SerializedObject
serialized type_name (ok buf) = ok (record { type = type_name; revision = ""; bytes = buf })
serialized type_name (err e) = err e
serialized type_name panicked = panicked

unfoldable pub axon_serialize : {T : Type 0} → Codec T → String → T → Result SerializedObject
unfolding serialized
axon_serialize codec type_name message = serialized type_name (codec.encode message)
