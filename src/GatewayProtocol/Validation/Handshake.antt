-- ===== src/GatewayProtocol/Validation/Handshake.antt =====
-- crates/gateway-protocol/src/validation.rs: the checks of the handshake's messages.
use vpn_ne_vpn.Prelude.{
  String, Bool, true, not, ◌||◌, if◌then◌else◌, ltb, ◌==◌, Result, ok, ok_or, and_then, Option,
  some, none, length, ◌also◌,
}
use vpn_ne_vpn.Prelude.Ints.{is_positive, is_zero}
use vpn_ne_vpn.Prelude.Maps.{nat_eq}
use vpn_ne_vpn.GatewayProtocol.Error.{ProtocolError, invalid_field}
use vpn_ne_vpn.GatewayProtocol.Limits.{max_concurrent_streams}
use vpn_ne_vpn.GatewayProtocol.Negotiation.{
  ProtocolVersion, ProtocolVersionRange, validate_version_range,
}
use vpn_ne_vpn.GatewayProtocol.Negotiation.Capabilities.{validate_capabilities}
use vpn_ne_vpn.GatewayProtocol.Messages.{
  ClientHello, ServerHello, Authenticate, AuthenticationResult,
}
use vpn_ne_vpn.GatewayProtocol.Validation.Fields.{
  fail, max_capability_token, max_proof_of_possession, max_session_ttl_seconds, exact_length,
  bounded_nonempty, known_enum, known_nonzero_enum, validate_country, validate_frame_limit,
  validate_connection_window, validate_stream_window, error_codes, anonymity_modes, is_direct_tor,
}

abbrev pub field : {A : Type 0} → Option A → String → Result ProtocolError A
field a name = ok_or a (invalid_field name)

abbrev pub some_range : Option ProtocolVersionRange → Result ProtocolError (Unit {0})
some_range range =
    and_then (field range "supported_versions") λ r. and_then (validate_version_range r) λ _. ok tt

unfoldable pub validate_client_hello : ClientHello → Result ProtocolError (Unit {0})
validate_client_hello m =
    some_range m.supported_versions
    also validate_capabilities m.client_capabilities
    also known_nonzero_enum anonymity_modes m.anonymity_mode "anonymity_mode"
    also fail (is_direct_tor m.anonymity_mode) "anonymity_mode"
    also validate_country m.desired_country
    also exact_length m.session_nonce 32 "session_nonce"
    also validate_frame_limit m.maximum_frame_size
    also validate_connection_window m.initial_connection_receive_window
    also validate_stream_window m.initial_stream_receive_window

abbrev pub has_no_major : Option ProtocolVersion → Bool
has_no_major none = true
has_no_major (some version) = version.major == 0

unfoldable pub validate_server_hello : ServerHello → Result ProtocolError (Unit {0})
validate_server_hello m =
    some_range m.supported_versions
    also fail (has_no_major m.selected_version) "selected_version"
    also validate_capabilities m.enabled_capabilities
    also exact_length m.echoed_client_nonce 32 "echoed_client_nonce"
    also exact_length m.server_nonce 32 "server_nonce"
    also exact_length m.ephemeral_session_id 16 "ephemeral_session_id"
    also validate_frame_limit m.maximum_frame_size
    also fail
        (m.maximum_concurrent_streams == 0
          || ltb max_concurrent_streams m.maximum_concurrent_streams)
        "maximum_concurrent_streams"
    also validate_connection_window m.initial_connection_receive_window
    also validate_stream_window m.initial_stream_receive_window
    also fail (m.idle_stream_timeout_ms == 0 || ltb 3600000 m.idle_stream_timeout_ms)
        "idle_stream_timeout_ms"
    also fail (m.session_ttl_seconds == 0 || ltb max_session_ttl_seconds m.session_ttl_seconds)
        "session_ttl_seconds"

unfoldable pub validate_authenticate : Authenticate → Result ProtocolError (Unit {0})
validate_authenticate m =
    bounded_nonempty m.anonymous_capability_token max_capability_token "token"
    also fail (ltb max_proof_of_possession (length m.proof_of_possession)) "proof_of_possession"
    also exact_length m.session_nonce_binding 32 "session_nonce_binding"

unfoldable pub validate_authentication_result :
    AuthenticationResult → Result ProtocolError (Unit {0})
validate_authentication_result m =
    validate_capabilities m.granted_capabilities
    also known_enum error_codes m.error_code "authentication_error_code"
    also fail
        (if m.accepted
          then not (is_zero m.error_code) || not (is_positive m.expires_at_unix_seconds)
          else is_zero m.error_code || not (is_zero m.expires_at_unix_seconds))
        "authentication_result"
