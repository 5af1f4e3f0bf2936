-- ===== src/GatewayProtocol/Client.antt =====
-- crates/gateway-protocol/src/client.rs: the handshake of a client. What the transport will deliver at
-- each receipt, its answers to the writes, the random nonce, the authenticator and SHA-256 are
-- arguments; the timeout around it is left out.
use vpn_ne_vpn.Prelude.{
  ℕ, zero, suc, ◌%◌, min, not, Result, ok, err, ok_or, and_then, Option, some, List, [], ◌∷◌,
  String,
}
use vpn_ne_vpn.Prelude.Bytes.{same_bytes}
use vpn_ne_vpn.Prelude.Keeps.{◌>>=◌, ◌>>◌, return, lift, fail_if}
use vpn_ne_vpn.Prelude.Ints.{ℤ, pos}
use vpn_ne_vpn.Prelude.Sets.{collect}
use vpn_ne_vpn.Prelude.Maps.{string_eq}
use vpn_ne_vpn.GatewayProtocol.Error.{
  ProtocolError, invalid_field, incompatible_version, protocol_violation, invalid_session,
  authentication_rejected,
}
use vpn_ne_vpn.GatewayProtocol.Limits.{ProtocolLimits, default, validate}
use vpn_ne_vpn.GatewayProtocol.Negotiation.{
  ProtocolVersion, ProtocolVersionRange, version_range, verify_server_selection,
}
use vpn_ne_vpn.GatewayProtocol.Negotiation.Capabilities.{verify_enabled_capabilities}
use vpn_ne_vpn.GatewayProtocol.Messages.{
  Body, GatewayFrame, ClientHello, ServerHello, AuthenticationResult, client_hello, server_hello,
  authenticate, authentication_result, error_frame, go_away,
}
use vpn_ne_vpn.GatewayProtocol.Validation.Handshake.{validate_client_hello}
use vpn_ne_vpn.GatewayProtocol.Binding.{session_nonce_binding}
use vpn_ne_vpn.GatewayProtocol.Session.{Session, Call, new_client, awaiting_authentication_result}
use vpn_ne_vpn.GatewayProtocol.Session.Handshake.{
  NegotiatedParameters, configure_negotiated, mark_active, set_granted_capabilities,
}
use vpn_ne_vpn.GatewayProtocol.Session.Outbound.{queue_handshake}
use vpn_ne_vpn.GatewayProtocol.Session.Inbound.{receive}
use vpn_ne_vpn.GatewayProtocol.Session.Flush.{flush_all}

pub record AuthenticationMaterial : Type 0 where
  pub anonymous_capability_token : List ℕ
  pub proof_of_possession : List ℕ

-- `anonymity_mode` is the number that is sent.
pub record ClientConfig : Type 0 where
  pub supported_versions : ProtocolVersionRange
  pub capabilities : List String
  pub anonymity_mode : ℤ
  pub desired_country : String
  pub limits : ProtocolLimits

abbrev pub default_client : ClientConfig
default_client = record {
  supported_versions = version_range 1 0 0;
  capabilities = "required:tcp-connect-v1" ∷ "required:flow-control-v1" ∷ [];
  anonymity_mode = pos 1;
  desired_country = "";
  limits = default;
}

-- The hello that is sent; `as u32` keeps 32 bits.
abbrev pub hello_of : ClientConfig → List ℕ → ClientHello
hello_of config nonce = record {
  supported_versions = some config.supported_versions;
  client_capabilities = config.capabilities;
  anonymity_mode = config.anonymity_mode;
  desired_country = config.desired_country;
  session_nonce = nonce;
  maximum_frame_size = config.limits.maximum_frame_size % 4294967296;
  initial_connection_receive_window = config.limits.initial_connection_window;
  initial_stream_receive_window = config.limits.initial_stream_window;
}

-- `error.code == ErrorCode::ProtocolIncompatible as i32`
abbrev refused_hello : ℤ → ProtocolError
refused_hello (pos (suc zero)) = incompatible_version
refused_hello _ = protocol_violation "hello rejected"

abbrev pub expect_server_hello : Body → Result ProtocolError ServerHello
expect_server_hello (server_hello m) = ok m
expect_server_hello (error_frame m) = err (refused_hello m.code)
expect_server_hello (go_away m) = err (protocol_violation "hello rejected")
expect_server_hello _ = err (protocol_violation "expected ServerHello")

abbrev pub expect_result : Body → Result ProtocolError AuthenticationResult
expect_result (authentication_result m) = ok m
expect_result (error_frame m) = err authentication_rejected
expect_result (go_away m) = err authentication_rejected
expect_result _ = err (protocol_violation "expected AuthenticationResult")

abbrev pub agreed_with :
    ClientConfig → ClientHello → ServerHello → ProtocolVersion → NegotiatedParameters
agreed_with config hello answer selected = record {
  selected_version = selected;
  session_id = answer.ephemeral_session_id;
  maximum_frame_size = min config.limits.maximum_frame_size answer.maximum_frame_size;
  peer_connection_receive_window = answer.initial_connection_receive_window;
  local_connection_receive_window = hello.initial_connection_receive_window;
  maximum_concurrent_streams = answer.maximum_concurrent_streams;
  enabled_capabilities = collect answer.enabled_capabilities;
  idle_stream_timeout = min config.limits.idle_stream_timeout answer.idle_stream_timeout_ms;
  next_phase = awaiting_authentication_result;
}

module _ (encode_message : GatewayFrame → List ℕ) (decode_message : List ℕ → Option GatewayFrame)
    (sha256 : List ℕ → List ℕ)
    (authentication_material : List ℕ → Result ProtocolError AuthenticationMaterial)
    (written : ℕ → Result ProtocolError (Unit {0})) where
  -- The checks of the server's hello, and the version that it chose.
  unfoldable pub check_hello : ClientConfig → ClientHello → ServerHello → Call ProtocolVersion
  check_hello config hello answer = do
    fail_if (not (same_bytes answer.echoed_client_nonce hello.session_nonce)) invalid_session
    server_range ←
        lift (ok_or answer.supported_versions (invalid_field "server_supported_versions"))
    selected ← lift (ok_or answer.selected_version (invalid_field "selected_version"))
    lift (verify_server_selection config.supported_versions server_range selected)
    lift (verify_enabled_capabilities config.capabilities answer.enabled_capabilities)
    return selected

  -- The second half of `connect_inner`, which answers with the granted capabilities.
  unfoldable pub prove :
      ClientHello → ServerHello → ProtocolVersion → List ℕ → ℕ → Call (List String)
  prove hello answer selected input now = do
    binding ← lift (
        session_nonce_binding sha256 hello.session_nonce answer.server_nonce
          answer.ephemeral_session_id selected)
    material ← lift (authentication_material binding)
    queue_handshake encode_message (
        authenticate (record {
          anonymous_capability_token = material.anonymous_capability_token;
          proof_of_possession = material.proof_of_possession;
          session_nonce_binding = binding;
        }))
    flush_all encode_message written
    body ← receive decode_message input now
    result ← lift (expect_result body)
    fail_if (not result.accepted) authentication_rejected
    lift (verify_enabled_capabilities answer.enabled_capabilities result.granted_capabilities)
    set_granted_capabilities result.granted_capabilities
    mark_active
    return result.granted_capabilities

  -- `connect_inner` on the session that it makes.
  unfoldable pub greet : ClientConfig → ClientHello → List ℕ → List ℕ → ℕ → Call (List String)
  unfolding check_hello prove
  greet config hello first second now = do
    queue_handshake encode_message (client_hello hello)
    flush_all encode_message written
    body ← receive decode_message first now
    answer ← lift (expect_server_hello body)
    selected ← check_hello config hello answer
    configure_negotiated (agreed_with config hello answer selected)
    prove hello answer selected second now

  unfoldable pub connect_inner :
      ClientConfig
      → Result ProtocolError (List ℕ)
      → List ℕ
      → List ℕ
      → ℕ
      → Result ProtocolError (Session × List String)
  unfolding greet
  connect_inner config entropy first second now = and_then (validate config.limits) λ _.
      and_then (ok_or config.supported_versions.maximum (invalid_field "maximum_version"))
        λ initial_version. and_then entropy λ client_nonce.
          let hello = hello_of config client_nonce in
          and_then (validate_client_hello hello) λ _.
            and_then (new_client config.limits initial_version) λ session.
              let r = greet config hello first second now session in
              and_then r.1 (λ granted. ok (r.0, granted))
