-- ===== src/GatewayProtocol/Messages.antt =====
-- proto/gateway/v1: the messages, as the generated Rust types have them. Bytes are lists of numbers,
-- an enum's field is the integer that was sent, a missing message field is `none`.
use vpn_ne_vpn.Prelude.{ℕ, Bool, Option, List, String}
use vpn_ne_vpn.Prelude.Ints.{ℤ, pos}
use vpn_ne_vpn.GatewayProtocol.Negotiation.{ProtocolVersion, ProtocolVersionRange}

pub record ClientHello : Type 0 where
  pub supported_versions : Option ProtocolVersionRange
  pub client_capabilities : List String
  pub anonymity_mode : ℤ
  pub desired_country : String
  pub session_nonce : List ℕ
  pub maximum_frame_size : ℕ
  pub initial_connection_receive_window : ℕ
  pub initial_stream_receive_window : ℕ

pub record ServerHello : Type 0 where
  pub supported_versions : Option ProtocolVersionRange
  pub selected_version : Option ProtocolVersion
  pub enabled_capabilities : List String
  pub echoed_client_nonce : List ℕ
  pub server_nonce : List ℕ
  pub ephemeral_session_id : List ℕ
  pub maximum_frame_size : ℕ
  pub maximum_concurrent_streams : ℕ
  pub initial_connection_receive_window : ℕ
  pub initial_stream_receive_window : ℕ
  pub idle_stream_timeout_ms : ℕ
  pub session_ttl_seconds : ℕ

pub record Authenticate : Type 0 where
  pub anonymous_capability_token : List ℕ
  pub proof_of_possession : List ℕ
  pub session_nonce_binding : List ℕ

pub record AuthenticationResult : Type 0 where
  pub accepted : Bool
  pub error_code : ℤ
  pub granted_capabilities : List String
  pub expires_at_unix_seconds : ℤ

pub data Destination : Type 0 where
  hostname : String → Destination
  ip_address : List ℕ → Destination

-- `destination` is missing where the message or its value is.
pub record OpenTcpStream : Type 0 where
  pub stream_id : ℕ
  pub destination : Option Destination
  pub destination_port : ℕ
  pub timeout_ms : ℕ
  pub policy_flags : ℕ
  pub initial_receive_window : ℕ

pub record TcpStreamOpened : Type 0 where
  pub stream_id : ℕ
  pub initial_receive_window : ℕ

pub record TcpStreamRejected : Type 0 where
  pub stream_id : ℕ
  pub error_code : ℤ
  pub retry_hint : ℤ

pub record Data : Type 0 where
  pub stream_id : ℕ
  pub payload : List ℕ

pub record WindowUpdate : Type 0 where
  pub stream_id : ℕ
  pub credit : ℕ

pub record HalfClose : Type 0 where
  pub stream_id : ℕ

pub record CloseStream : Type 0 where
  pub stream_id : ℕ
  pub code : ℤ

pub record ResolveDomain : Type 0 where
  pub query_id : ℕ
  pub hostname : String
  pub address_family : ℤ
  pub timeout_ms : ℕ

pub record ResolveResult : Type 0 where
  pub query_id : ℕ
  pub error_code : ℤ
  pub ip_addresses : List (List ℕ)
  pub minimum_ttl_seconds : ℕ

pub record RotateSession : Type 0 where
  pub rotation_nonce : List ℕ
  pub reason : ℤ
  pub drain_timeout_ms : ℕ

pub record SessionRotated : Type 0 where
  pub rotation_nonce : List ℕ
  pub accepted : Bool
  pub error_code : ℤ
  pub replacement_transport_required : Bool

pub record Error : Type 0 where
  pub code : ℤ
  pub retry_hint : ℤ
  pub fatal : Bool
  pub stream_id : ℕ
  pub retry_after_ms : ℕ
  pub correlation_id : List ℕ

pub record GoAway : Type 0 where
  pub last_accepted_stream_id : ℕ
  pub code : ℤ
  pub drain_timeout_ms : ℕ

pub data Body : Type 0 where
  client_hello : ClientHello → Body
  server_hello : ServerHello → Body
  authenticate : Authenticate → Body
  authentication_result : AuthenticationResult → Body
  open_tcp_stream : OpenTcpStream → Body
  tcp_stream_opened : TcpStreamOpened → Body
  tcp_stream_rejected : TcpStreamRejected → Body
  data_frame : Data → Body
  window_update : WindowUpdate → Body
  half_close : HalfClose → Body
  close_stream : CloseStream → Body
  resolve_domain : ResolveDomain → Body
  resolve_result : ResolveResult → Body
  rotate_session : RotateSession → Body
  session_rotated : SessionRotated → Body
  ping pong : List ℕ → Body
  error_frame : Error → Body
  go_away : GoAway → Body

pub record GatewayFrame : Type 0 where
  pub sequence : ℕ
  pub version : Option ProtocolVersion
  pub critical_extension_ids : List ℕ
  pub session_id : List ℕ
  pub body : Option Body

pub data CloseCode : Type 0 where
  unspecified finished cancelled timeout protocol policy resource_exhausted internal : CloseCode

-- `code as i32`
abbrev pub close_code_number : CloseCode → ℤ
close_code_number unspecified = pos 0
close_code_number finished = pos 1
close_code_number cancelled = pos 2
close_code_number timeout = pos 3
close_code_number protocol = pos 4
close_code_number policy = pos 5
close_code_number resource_exhausted = pos 6
close_code_number internal = pos 7
