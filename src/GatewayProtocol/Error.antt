-- ===== src/GatewayProtocol/Error.antt =====
-- crates/gateway-protocol/src/error.rs: the errors of the protocol, with what each one carries.
use vpn_ne_vpn.Prelude.{ℕ, String}

-- The sources that `Io`, `Encode` and `Decode` wrap belong to other crates and are left out.
pub data ProtocolError : Type 0 where
  io encode decode : ProtocolError
  frame_too_large : ℕ → ℕ → ProtocolError
  empty_frame invalid_length_prefix non_canonical_varint truncated_wire_value : ProtocolError
  duplicate_field : ℕ → ProtocolError
  unknown_message_tag : ℕ → ProtocolError
  missing_body : ProtocolError
  invalid_field : String → ProtocolError
  protocol_violation : String → ProtocolError
  incompatible_version silent_downgrade invalid_sequence invalid_session : ProtocolError
  backpressure stream_limit invalid_stream_id flow_control_violation : ProtocolError
  integer_overflow handshake_timeout idle_timeout authentication_rejected : ProtocolError
  closed entropy_unavailable : ProtocolError
