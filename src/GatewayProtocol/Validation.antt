-- ===== src/GatewayProtocol/Validation.antt =====
-- crates/gateway-protocol/src/validation.rs: the checks of a frame's fields. A text's bytes are
-- compared as the numbers of its characters once it is known to be ASCII.
pub mod Fields
pub mod Handshake
pub mod Streams
use vpn_ne_vpn.Prelude.{
  ℕ, Bool, true, false, not, ◌&&◌, ◌||◌, if◌then◌else◌, ltb, leb, ◌==◌, Result, ok, err, ok_or,
  and_then, Option, some, none, List, [], ◌∷◌, length, null, all, ◌also◌,
}
use vpn_ne_vpn.Prelude.Ints.{ℤ, is_positive, is_zero}
use vpn_ne_vpn.Prelude.Maps.{nat_eq}
use vpn_ne_vpn.Prelude.Sets.{contains}
use vpn_ne_vpn.GatewayProtocol.Error.{
  ProtocolError, invalid_field, invalid_sequence, protocol_violation, missing_body,
}
use vpn_ne_vpn.GatewayProtocol.Limits.{max_concurrent_streams}
use vpn_ne_vpn.GatewayProtocol.Negotiation.{
  ProtocolVersion, ProtocolVersionRange, validate_version_range,
}
use vpn_ne_vpn.GatewayProtocol.Negotiation.Capabilities.{validate_capabilities}
use vpn_ne_vpn.GatewayProtocol.Flow.{validate_stream_id}
use vpn_ne_vpn.GatewayProtocol.Messages
use vpn_ne_vpn.GatewayProtocol.Messages.{
  GatewayFrame, Body, Destination, ClientHello, ServerHello, Authenticate, AuthenticationResult,
  OpenTcpStream, TcpStreamOpened, TcpStreamRejected, Data, WindowUpdate, HalfClose, CloseStream,
  ResolveDomain, ResolveResult, RotateSession, SessionRotated, Error, GoAway, client_hello,
  server_hello, authenticate, authentication_result, open_tcp_stream, tcp_stream_opened,
  tcp_stream_rejected, data_frame, window_update, half_close, close_stream, resolve_domain,
  resolve_result, rotate_session, session_rotated, ping, pong, error_frame, go_away,
}
use vpn_ne_vpn.GatewayProtocol.Validation.Fields.{
  fail, max_data_payload, max_capability_token, max_proof_of_possession, max_resolve_addresses,
  max_timeout_ms, max_session_ttl_seconds, exact_length, bounded_range, bounded_nonempty,
  known_enum, known_nonzero_enum, validate_hostname, validate_ip_address, validate_country,
  validate_frame_limit, validate_connection_window, validate_stream_window, validate_timeout,
  validate_drain_timeout, error_codes, close_codes, retry_hints, address_families, rotation_reasons,
  anonymity_modes, is_direct_tor,
}
use vpn_ne_vpn.GatewayProtocol.Validation.Handshake.{
  validate_client_hello, validate_server_hello, validate_authenticate,
  validate_authentication_result,
}
use vpn_ne_vpn.GatewayProtocol.Validation.Streams.{
  validate_open_tcp, validate_stream_opened, validate_stream_rejected, validate_data,
  validate_window_update, validate_close_stream, validate_resolve_domain, validate_resolve_result,
  validate_rotate_session, validate_session_rotated, validate_error, validate_go_away,
}

unfoldable pub validate_body : Body → Result ProtocolError (Unit {0})
validate_body (client_hello m) = validate_client_hello m
validate_body (server_hello m) = validate_server_hello m
validate_body (authenticate m) = validate_authenticate m
validate_body (authentication_result m) = validate_authentication_result m
validate_body (open_tcp_stream m) = validate_open_tcp m
validate_body (tcp_stream_opened m) = validate_stream_opened m
validate_body (tcp_stream_rejected m) = validate_stream_rejected m
validate_body (data_frame m) = validate_data m
validate_body (window_update m) = validate_window_update m
validate_body (half_close m) = validate_stream_id m.stream_id
validate_body (close_stream m) = validate_close_stream m
validate_body (resolve_domain m) = validate_resolve_domain m
validate_body (resolve_result m) = validate_resolve_result m
validate_body (rotate_session m) = validate_rotate_session m
validate_body (session_rotated m) = validate_session_rotated m
validate_body (ping nonce) = bounded_range nonce 8 32 "ping_nonce"
validate_body (pong nonce) = bounded_range nonce 8 32 "pong_nonce"
validate_body (error_frame m) = validate_error m
validate_body (go_away m) = validate_go_away m

-- The loop over the extensions, with the set of those met.
unfoldable pub validate_extensions : List ℕ → List ℕ → List ℕ → Result ProtocolError (Unit {0})
validate_extensions enabled seen [] = ok tt
validate_extensions enabled seen (extension ∷ rest) =
    let later = validate_extensions enabled (extension ∷ seen) rest in
    if extension == 0 || not (contains enabled extension) || contains seen extension
    then err (protocol_violation "unknown or duplicate critical extension")
    else later

unfoldable pub validate_frame : GatewayFrame → List ℕ → Result ProtocolError (Unit {0})
unfolding validate_extensions validate_body
validate_frame frame enabled_critical_extensions =
    (if frame.sequence == 0 then err invalid_sequence else ok tt)
    also and_then (ok_or frame.version (invalid_field "frame_version"))
        (λ version. fail (version.major == 0) "frame_version")
    also validate_extensions enabled_critical_extensions [] frame.critical_extension_ids
    also and_then (ok_or frame.body missing_body) validate_body
