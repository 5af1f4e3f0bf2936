-- ===== src/GatewayProtocol/Validation/Streams.antt =====
-- crates/gateway-protocol/src/validation.rs: the checks of the messages of an open session.
use vpn_ne_vpn.Prelude.{
  ℕ, not, ◌&&◌, ◌||◌, if◌then◌else◌, ltb, leb, ◌==◌, Result, ok, and_then, List, [], ◌∷◌, length,
  null, ◌also◌,
}
use vpn_ne_vpn.Prelude.Ints.{is_zero}
use vpn_ne_vpn.Prelude.Maps.{nat_eq}
use vpn_ne_vpn.GatewayProtocol.Error.{ProtocolError}
use vpn_ne_vpn.GatewayProtocol.Validation.Handshake.{field}
use vpn_ne_vpn.GatewayProtocol.Flow.{validate_stream_id}
use vpn_ne_vpn.GatewayProtocol.Messages.{
  Destination, OpenTcpStream, TcpStreamOpened, TcpStreamRejected, Data, WindowUpdate, CloseStream,
  ResolveDomain, ResolveResult, RotateSession, SessionRotated, Error, GoAway,
}
use vpn_ne_vpn.GatewayProtocol.Validation.Fields.{
  fail, max_data_payload, max_resolve_addresses, max_timeout_ms, exact_length, bounded_nonempty,
  known_enum, known_nonzero_enum, validate_hostname, validate_ip_address, validate_stream_window,
  validate_timeout, validate_drain_timeout, error_codes, close_codes, retry_hints, address_families,
  rotation_reasons,
}

abbrev pub validate_destination : Destination → Result ProtocolError (Unit {0})
validate_destination (Destination.hostname h) = validate_hostname h
validate_destination (Destination.ip_address a) = validate_ip_address a

-- `policy_flags & !0b11 != 0 || policy_flags == 0b11` is a number of 3 or more.
unfoldable pub validate_open_tcp : OpenTcpStream → Result ProtocolError (Unit {0})
validate_open_tcp m =
    validate_stream_id m.stream_id
    also and_then (field m.destination "destination") validate_destination
    also fail (m.destination_port == 0 || ltb 65535 m.destination_port) "destination_port"
    also validate_timeout m.timeout_ms
    also fail (leb 3 m.policy_flags) "policy_flags"
    also validate_stream_window m.initial_receive_window

unfoldable pub validate_stream_opened : TcpStreamOpened → Result ProtocolError (Unit {0})
validate_stream_opened m =
    validate_stream_id m.stream_id also validate_stream_window m.initial_receive_window

unfoldable pub validate_stream_rejected : TcpStreamRejected → Result ProtocolError (Unit {0})
validate_stream_rejected m =
    validate_stream_id m.stream_id
    also known_nonzero_enum error_codes m.error_code "stream_error_code"
    also known_enum retry_hints m.retry_hint "retry_hint"

unfoldable pub validate_data : Data → Result ProtocolError (Unit {0})
validate_data m =
    validate_stream_id m.stream_id also bounded_nonempty m.payload max_data_payload "data_payload"

abbrev pub optional_stream_id : ℕ → Result ProtocolError (Unit {0})
optional_stream_id id = if not (id == 0) then validate_stream_id id else ok tt

unfoldable pub validate_window_update : WindowUpdate → Result ProtocolError (Unit {0})
validate_window_update m = optional_stream_id m.stream_id also fail (m.credit == 0) "window_credit"

unfoldable pub validate_close_stream : CloseStream → Result ProtocolError (Unit {0})
validate_close_stream m =
    validate_stream_id m.stream_id also known_nonzero_enum close_codes m.code "close_code"

unfoldable pub validate_resolve_domain : ResolveDomain → Result ProtocolError (Unit {0})
validate_resolve_domain m =
    validate_stream_id m.query_id
    also validate_hostname m.hostname
    also known_nonzero_enum address_families m.address_family "address_family"
    also validate_timeout m.timeout_ms

unfoldable pub validate_addresses : List (List ℕ) → Result ProtocolError (Unit {0})
validate_addresses [] = ok tt
validate_addresses (a ∷ rest) = validate_ip_address a also validate_addresses rest

unfoldable pub validate_resolve_result : ResolveResult → Result ProtocolError (Unit {0})
unfolding validate_addresses
validate_resolve_result m =
    validate_stream_id m.query_id
    also fail (ltb max_resolve_addresses (length m.ip_addresses)) "resolve_addresses"
    also known_enum error_codes m.error_code "resolve_error_code"
    also (if is_zero m.error_code
        then fail (null m.ip_addresses || m.minimum_ttl_seconds == 0) "resolve_result"
          also validate_addresses m.ip_addresses
        else fail (not (null m.ip_addresses) || not (m.minimum_ttl_seconds == 0)) "resolve_result")

unfoldable pub validate_rotate_session : RotateSession → Result ProtocolError (Unit {0})
validate_rotate_session m =
    exact_length m.rotation_nonce 16 "rotation_nonce"
    also known_nonzero_enum rotation_reasons m.reason "rotation_reason"
    also validate_drain_timeout m.drain_timeout_ms

unfoldable pub validate_session_rotated : SessionRotated → Result ProtocolError (Unit {0})
validate_session_rotated m =
    exact_length m.rotation_nonce 16 "rotation_nonce"
    also known_enum error_codes m.error_code "rotation_error_code"
    also fail
        (if m.accepted
          then not (is_zero m.error_code) || not m.replacement_transport_required
          else is_zero m.error_code || m.replacement_transport_required)
        "session_rotated"

unfoldable pub validate_error : Error → Result ProtocolError (Unit {0})
validate_error m =
    known_nonzero_enum error_codes m.code "error_code"
    also known_enum retry_hints m.retry_hint "retry_hint"
    also fail (m.fatal && not (m.stream_id == 0)) "fatal_error_scope"
    also optional_stream_id m.stream_id
    also fail (ltb max_timeout_ms m.retry_after_ms) "retry_after_ms"
    also exact_length m.correlation_id 16 "correlation_id"

unfoldable pub validate_go_away : GoAway → Result ProtocolError (Unit {0})
validate_go_away m =
    optional_stream_id m.last_accepted_stream_id
    also known_enum error_codes m.code "go_away_code"
    also validate_drain_timeout m.drain_timeout_ms
