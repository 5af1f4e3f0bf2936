-- ===== src/GatewayProtocol/Server.antt =====
-- crates/gateway-protocol/src/server.rs: the handshake of a server. What the transport will deliver at
-- each receipt, its answers to the writes, the random bytes, the verifier of tokens and SHA-256 are
-- arguments; the timeout around it is left out.
use vpn_ne_vpn.Prelude.{
  ℕ, ◌%◌, Bool, true, false, min, not, ◌||◌, ltb, ◌==◌, if◌then◌else◌, Result, ok, err, ok_or,
  and_then, Option, some, List, [], ◌∷◌, String, u32_max,
}
use vpn_ne_vpn.Prelude.Bytes.{same_bytes}
use vpn_ne_vpn.Prelude.Keeps.{◌>>=◌, ◌>>◌, return, lift, fail_if}
use vpn_ne_vpn.Prelude.Ints.{ℤ, pos, is_positive}
use vpn_ne_vpn.Prelude.Sets.{collect}
use vpn_ne_vpn.Prelude.Maps.{string_eq}
use vpn_ne_vpn.GatewayProtocol.Error.{
  ProtocolError, invalid_field, protocol_violation, authentication_rejected,
}
use vpn_ne_vpn.GatewayProtocol.Limits.{ProtocolLimits, default, validate}
use vpn_ne_vpn.GatewayProtocol.Negotiation.{
  ProtocolVersion, ProtocolVersionRange, version_range, select_version,
}
use vpn_ne_vpn.GatewayProtocol.Negotiation.Capabilities.{
  negotiate_capabilities, verify_enabled_capabilities,
}
use vpn_ne_vpn.GatewayProtocol.Messages.{
  Body, GatewayFrame, ClientHello, ServerHello, Authenticate, client_hello, server_hello,
  authenticate, authentication_result, error_frame,
}
use vpn_ne_vpn.GatewayProtocol.Validation.Fields.{max_session_ttl_seconds}
use vpn_ne_vpn.GatewayProtocol.Binding.{session_nonce_binding}
use vpn_ne_vpn.GatewayProtocol.Session.{
  Session, Call, new_server, awaiting_authentication, tcp_connect_v1, flow_control_v1,
}
use vpn_ne_vpn.GatewayProtocol.Session.Handshake.{
  NegotiatedParameters, configure_negotiated, mark_active, set_granted_capabilities,
}
use vpn_ne_vpn.GatewayProtocol.Session.Outbound.{queue_handshake}
use vpn_ne_vpn.GatewayProtocol.Session.Inbound.{receive}
use vpn_ne_vpn.GatewayProtocol.Session.Flush.{flush_all}

pub record AuthenticationDecision : Type 0 where
  pub accepted : Bool
  pub expires_at_unix_seconds : ℤ
  pub granted_capabilities : List String

abbrev pub reject : AuthenticationDecision
reject = record { accepted = false; expires_at_unix_seconds = pos 0; granted_capabilities = [] }

pub record ServerConfig : Type 0 where
  pub supported_versions : ProtocolVersionRange
  pub supported_capabilities : List String
  pub session_ttl_seconds : ℕ
  pub limits : ProtocolLimits

abbrev pub default_server : ServerConfig
default_server = record {
  supported_versions = version_range 1 0 0;
  supported_capabilities = tcp_connect_v1 ∷ flow_control_v1 ∷ [];
  session_ttl_seconds = 3600;
  limits = default;
}

-- What `getrandom` gives at each use, or its error.
pub record Entropy : Type 0 where
  pub server_nonce : Result ProtocolError (List ℕ)
  pub session_id : Result ProtocolError (List ℕ)
  pub correlation_id : Result ProtocolError (List ℕ)

abbrev pub expect_client_hello : Body → Result ProtocolError ClientHello
expect_client_hello (client_hello m) = ok m
expect_client_hello _ = err (protocol_violation "expected ClientHello")

abbrev pub expect_authenticate : Body → Result ProtocolError Authenticate
expect_authenticate (authenticate m) = ok m
expect_authenticate _ = err (protocol_violation "expected Authenticate")

-- `as u32` keeps 32 bits.
abbrev pub answer_to :
    ServerConfig → ClientHello → ProtocolVersion → List String → List ℕ → List ℕ → ℕ → ServerHello
answer_to config hello selected enabled nonce session_id idle_timeout_ms = record {
  supported_versions = some config.supported_versions;
  selected_version = some selected;
  enabled_capabilities = enabled;
  echoed_client_nonce = hello.session_nonce;
  server_nonce = nonce;
  ephemeral_session_id = session_id;
  maximum_frame_size = min config.limits.maximum_frame_size hello.maximum_frame_size % 4294967296;
  maximum_concurrent_streams = config.limits.maximum_concurrent_streams % 4294967296;
  initial_connection_receive_window = config.limits.initial_connection_window;
  initial_stream_receive_window = config.limits.initial_stream_window;
  idle_stream_timeout_ms = idle_timeout_ms;
  session_ttl_seconds = config.session_ttl_seconds;
}

abbrev pub agreed_with :
    ServerConfig → ClientHello → ProtocolVersion → List String → List ℕ → NegotiatedParameters
agreed_with config hello selected enabled session_id = record {
  selected_version = selected;
  session_id = session_id;
  maximum_frame_size = min config.limits.maximum_frame_size hello.maximum_frame_size;
  peer_connection_receive_window = hello.initial_connection_receive_window;
  local_connection_receive_window = config.limits.initial_connection_window;
  maximum_concurrent_streams = config.limits.maximum_concurrent_streams;
  enabled_capabilities = collect enabled;
  idle_stream_timeout = config.limits.idle_stream_timeout;
  next_phase = awaiting_authentication;
}

module _ (encode_message : GatewayFrame → List ℕ) (decode_message : List ℕ → Option GatewayFrame)
    (sha256 : List ℕ → List ℕ)
    (verify : List ℕ → List ℕ → List ℕ → Result ProtocolError AuthenticationDecision)
    (written : ℕ → Result ProtocolError (Unit {0})) (entropy : Entropy) where
  -- The code is `ProtocolIncompatible`, the hint `Never`.
  unfoldable pub send_incompatible : Call (Unit {0})
  send_incompatible = do
    correlation_id ← lift entropy.correlation_id
    queue_handshake encode_message (
        error_frame (record {
          code = pos 1;
          retry_hint = pos 1;
          fatal = true;
          stream_id = 0;
          retry_after_ms = 0;
          correlation_id = correlation_id;
        }))
    flush_all encode_message written

  -- A choice that fails is told to the client before it is returned.
  abbrev pub or_incompatible : {A : Type 0} → Result ProtocolError A → Call A
  or_incompatible (ok a) = return a
  or_incompatible (err e) = do send_incompatible; lift (err e)

  -- The code is `Unspecified` or `AuthenticationFailed`.
  unfoldable pub send_authentication_result : AuthenticationDecision → Call (Unit {0})
  send_authentication_result decision = do
    queue_handshake encode_message (
        authentication_result (record {
          accepted = decision.accepted;
          error_code = if decision.accepted then pos 0 else pos 4;
          granted_capabilities = decision.granted_capabilities;
          expires_at_unix_seconds = decision.expires_at_unix_seconds;
        }))
    flush_all encode_message written

  abbrev pub check_binding : Bool → Call (Unit {0})
  check_binding true = return tt
  check_binding false = do send_authentication_result reject; lift (err authentication_rejected)

  -- The checks of a decision that accepts.
  abbrev pub check_decision : Bool → List String → AuthenticationDecision → Call (Unit {0})
  check_decision false enabled decision = return tt
  check_decision true enabled decision = do
    lift (verify_enabled_capabilities enabled decision.granted_capabilities)
    fail_if (not (is_positive decision.expires_at_unix_seconds))
        (invalid_field "authentication_expiry")

  -- The second half of `accept_inner`, which answers with the granted capabilities.
  unfoldable pub admit :
      ClientHello
      → ProtocolVersion
      → List String
      → List ℕ
      → List ℕ
      → List ℕ
      → ℕ
      → Call (List String)
  unfolding send_authentication_result
  admit hello selected enabled server_nonce session_id input now = do
    body ← receive decode_message input now
    m ← lift (expect_authenticate body)
    expected_binding ←
        lift (session_nonce_binding sha256 hello.session_nonce server_nonce session_id selected)
    check_binding (same_bytes m.session_nonce_binding expected_binding)
    decision ← lift (verify m.anonymous_capability_token m.proof_of_possession expected_binding)
    check_decision decision.accepted enabled decision
    send_authentication_result decision
    fail_if (not decision.accepted) authentication_rejected
    set_granted_capabilities decision.granted_capabilities
    mark_active
    return decision.granted_capabilities

  -- `accept_inner` on the session that it makes.
  unfoldable pub welcome : ServerConfig → List ℕ → List ℕ → ℕ → Call (List String)
  unfolding send_incompatible admit
  welcome config first second now = do
    body ← receive decode_message first now
    hello ← lift (expect_client_hello body)
    client_range ← lift (ok_or hello.supported_versions (invalid_field "client_supported_versions"))
    selected ← or_incompatible (select_version client_range config.supported_versions)
    enabled ←
        or_incompatible
          (negotiate_capabilities hello.client_capabilities config.supported_capabilities)
    nonce ← lift entropy.server_nonce
    id ← lift entropy.session_id
    fail_if (ltb u32_max config.limits.idle_stream_timeout) (invalid_field "idle_stream_timeout")
    let answer = answer_to config hello selected enabled nonce id config.limits.idle_stream_timeout
    configure_negotiated (agreed_with config hello selected enabled id)
    queue_handshake encode_message (server_hello answer)
    flush_all encode_message written
    admit hello selected enabled nonce id second now

  unfoldable pub accept_inner :
      ServerConfig → List ℕ → List ℕ → ℕ → Result ProtocolError (Session × List String)
  unfolding welcome
  accept_inner config first second now = and_then (validate config.limits) λ _.
      if config.session_ttl_seconds == 0 || ltb max_session_ttl_seconds config.session_ttl_seconds
      then err (invalid_field "session_ttl_seconds")
      else and_then (ok_or config.supported_versions.maximum (invalid_field "maximum_version"))
          λ initial_version. and_then (new_server config.limits initial_version) λ session.
            let r = welcome config first second now session in
            and_then r.1 (λ granted. ok (r.0, granted))
