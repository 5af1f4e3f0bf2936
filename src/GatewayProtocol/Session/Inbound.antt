-- ===== src/GatewayProtocol/Session/Inbound.antt =====
-- crates/gateway-protocol/src/session.rs: frames put on the transport and taken from it. The bytes that
-- the transport will deliver are an argument of `receive`, and whether it takes a frame one of
-- `flush_one`, which answers with the frame where the code answers `true`.
use vpn_ne_vpn.Prelude.{
  ℕ, String, Bool, true, false, not, ◌&&◌, ◌||◌, if◌then◌else◌, leb, ◌==◌, Result, ok, err, ok_or,
  and_then, Option, some, none, List, [], length, null, checked_add,
}
use vpn_ne_vpn.Prelude.Keeps.{◌>>=◌, ◌>>◌, return, get, modify, lift, fail_if, check}
use vpn_ne_vpn.Prelude.Bytes.{same_bytes}
use vpn_ne_vpn.Prelude.Maps.{nat_eq, is_some}
use vpn_ne_vpn.Prelude.Sets.{contains, add, discard}
use vpn_ne_vpn.GatewayProtocol.Error.{
  ProtocolError, protocol_violation, integer_overflow, invalid_sequence, invalid_session,
  invalid_stream_id, missing_body, closed,
}
use vpn_ne_vpn.GatewayProtocol.Negotiation.{ProtocolVersion, ProtocolVersionRange, is_version}
use vpn_ne_vpn.GatewayProtocol.Messages.{
  Body, GatewayFrame, client_hello, server_hello, authenticate, authentication_result,
  open_tcp_stream, tcp_stream_opened, tcp_stream_rejected, data_frame, window_update, half_close,
  close_stream, resolve_domain, resolve_result, rotate_session, session_rotated, ping, pong,
  error_frame, go_away,
}
use vpn_ne_vpn.GatewayProtocol.Validation.{validate_frame}
use vpn_ne_vpn.GatewayProtocol.Framing.{encode_frame, read_frame}
use vpn_ne_vpn.GatewayProtocol.Flow
use vpn_ne_vpn.GatewayProtocol.Scheduler.{OutboundItem, pop_next, cancel_stream}
use vpn_ne_vpn.GatewayProtocol.Session.{
  Session, SessionPhase, Call, draining, active, closed_phase, awaiting_server_hello,
  awaiting_client_hello, awaiting_authentication, awaiting_authentication_result, is_client,
  is_draining, is_closed, tcp_connect_v1, flow_control_v1, resolve_domain_v1, session_rotation_v1,
  require_capability, with_flow,
}

-- Equality of the fields that the code compares with `==`.
abbrev pub same_version : Option ProtocolVersion → Option ProtocolVersion → Bool
same_version none none = true
same_version (some v) (some w) = is_version v w
same_version _ _ = false

abbrev pub highest : Option ProtocolVersionRange → Option ProtocolVersion
highest none = none
highest (some range) = range.maximum

-- The `if` of the two hellos in `validate_frame_context`.
abbrev pub is_opening : GatewayFrame → Option Body → Bool
is_opening frame (some (client_hello hello)) =
    null frame.session_id && same_version (highest hello.supported_versions) frame.version
is_opening frame _ = false

abbrev pub is_reply : GatewayFrame → Option Body → Bool
is_reply frame (some (server_hello hello)) =
    same_bytes frame.session_id hello.ephemeral_session_id
    && same_version hello.selected_version frame.version
is_reply frame (some (error_frame m)) = null frame.session_id
is_reply frame (some (go_away m)) = null frame.session_id
is_reply frame _ = false

-- The frame of an established session.
abbrev pub established : Session → GatewayFrame → Result ProtocolError (Unit {0})
established s frame =
    if not (same_bytes frame.session_id s.session_id)
    then err invalid_session
    else and_then (ok_or s.selected_version invalid_session) λ selected.
      if not (same_version frame.version (some selected))
      then err (protocol_violation "version changed after negotiation")
      else ok tt

abbrev pub context : Session → SessionPhase → GatewayFrame → Result ProtocolError (Unit {0})
context s awaiting_client_hello frame =
    if is_opening frame frame.body then ok tt else err invalid_session
context s awaiting_server_hello frame =
    if is_reply frame frame.body then ok tt else err invalid_session
context s closed_phase frame = err closed
context s _ frame = established s frame

unfoldable pub validate_frame_context : GatewayFrame → Session → Result ProtocolError (Unit {0})
validate_frame_context frame s = context s s.phase frame

abbrev pub violation : {A : Type 0} → Call A
violation s = (s, err (protocol_violation "handshake message after authentication"))

unfoldable pub apply_active_inbound : Body → ℕ → Call (Unit {0})
apply_active_inbound (open_tcp_stream m) now = do
  check (require_capability tcp_connect_v1)
  s ← get
  fail_if (is_client s.local_role || is_draining s.phase)
      (protocol_violation "new stream not permitted")
  with_flow (Flow.receive_open m.stream_id m.initial_receive_window now)
apply_active_inbound (tcp_stream_opened m) now = do
  check (require_capability tcp_connect_v1)
  s ← get
  fail_if (not (is_client s.local_role)) (protocol_violation "unexpected stream opened")
  with_flow (Flow.confirm_local_open m.stream_id m.initial_receive_window now)
apply_active_inbound (tcp_stream_rejected m) now = do
  check (require_capability tcp_connect_v1)
  s ← get
  fail_if (not (is_client s.local_role)) (protocol_violation "unexpected stream rejected")
  with_flow (Flow.reject_or_close m.stream_id)
apply_active_inbound (data_frame m) now = do
  check (require_capability tcp_connect_v1)
  with_flow (Flow.debit_receive m.stream_id (length m.payload) now)
apply_active_inbound (window_update m) now = do
  check (require_capability flow_control_v1)
  with_flow (Flow.receive_window_update m.stream_id m.credit now)
apply_active_inbound (half_close m) now = do
  check (require_capability tcp_connect_v1)
  with_flow (Flow.receive_half_close m.stream_id now)
apply_active_inbound (close_stream m) now = do
  check (require_capability tcp_connect_v1)
  modify (λ s. record s { scheduler = cancel_stream m.stream_id s.scheduler })
  with_flow (Flow.reject_or_close m.stream_id)
apply_active_inbound (resolve_domain m) now = do
  check (require_capability resolve_domain_v1)
  s ← get
  fail_if (is_client s.local_role || is_draining s.phase)
      (protocol_violation "resolve not permitted")
  fail_if
      (leb m.query_id s.maximum_seen_remote_query_id
        || leb s.limits.maximum_outstanding_resolves (length s.remote_resolves))
      invalid_stream_id
  modify λ t. record t {
    maximum_seen_remote_query_id = m.query_id;
    remote_resolves = add m.query_id t.remote_resolves;
  }
apply_active_inbound (resolve_result m) now = do
  check (require_capability resolve_domain_v1)
  s ← get
  fail_if (not (is_client s.local_role) || not (contains s.local_resolves m.query_id))
      invalid_stream_id
  modify (λ t. record t { local_resolves = discard m.query_id t.local_resolves })
apply_active_inbound (go_away m) now = modify (λ s. record s { phase = draining })
apply_active_inbound (error_frame m) now =
    if m.fatal then modify (λ s. record s { phase = closed_phase }) else return tt
apply_active_inbound (client_hello m) now = violation
apply_active_inbound (server_hello m) now = violation
apply_active_inbound (authenticate m) now = violation
apply_active_inbound (authentication_result m) now = violation
apply_active_inbound (rotate_session m) now = check (require_capability session_rotation_v1)
apply_active_inbound (session_rotated m) now = check (require_capability session_rotation_v1)
apply_active_inbound (ping n) now = return tt
apply_active_inbound (pong n) now = return tt

-- Whether the body is one that the handshake expects; `Error` and `GoAway` are, but for the first
-- frame that a server receives.
abbrev pub is_expected : SessionPhase → Body → Bool
is_expected awaiting_client_hello (client_hello m) = true
is_expected awaiting_client_hello _ = false
is_expected awaiting_server_hello (server_hello m) = true
is_expected awaiting_authentication (authenticate m) = true
is_expected awaiting_authentication_result (authentication_result m) = true
is_expected _ (error_frame m) = true
is_expected _ (go_away m) = true
is_expected _ _ = false

abbrev pub expectation : SessionPhase → String
expectation awaiting_client_hello = "expected ClientHello"
expectation awaiting_server_hello = "expected ServerHello"
expectation awaiting_authentication = "expected Authenticate"
expectation _ = "expected AuthenticationResult"

abbrev pub apply_in : SessionPhase → Body → ℕ → Call (Unit {0})
apply_in active body now = apply_active_inbound body now
apply_in draining body now = apply_active_inbound body now
apply_in closed_phase body now = lift (err closed)
apply_in phase body now =
    fail_if (not (is_expected phase body)) (protocol_violation (expectation phase))

unfoldable pub apply_inbound : Body → ℕ → Call (Unit {0})
apply_inbound body now s = apply_in s.phase body now s

abbrev pub close_on_error :
    {A : Type 0} → Session × Result ProtocolError A → Session × Result ProtocolError A
close_on_error (s, ok a) = (s, ok a)
close_on_error (s, err e) = (record s { phase = closed_phase }, err e)

module _ (encode_message : GatewayFrame → List ℕ) where
  abbrev pub outgoing : Session → Body → GatewayFrame
  outgoing s body = record {
    sequence = s.next_send_sequence;
    version = some s.outbound_version;
    critical_extension_ids = [];
    session_id = s.session_id;
    body = some body;
  }

  abbrev pub send_item :
      Result ProtocolError (Unit {0}) → Option (OutboundItem Body) → Call (Option GatewayFrame)
  send_item written none = return none
  send_item written (some item) = do
    s ← get
    next ← lift (ok_or (checked_add s.next_send_sequence 1) integer_overflow)
    modify (λ t. record t { next_send_sequence = next })
    lift (validate_frame (outgoing s item.body) s.enabled_critical_extensions)
    _ ← lift (encode_frame encode_message (outgoing s item.body) s.maximum_frame_size)
    lift written
    return (some (outgoing s item.body))

  unfoldable pub flush_one_inner : Result ProtocolError (Unit {0}) → Call (Option GatewayFrame)
  flush_one_inner written s =
      send_item written (pop_next s.scheduler).1 (record s { scheduler = (pop_next s.scheduler).0 })

  unfoldable pub flush_one : Result ProtocolError (Unit {0}) → Call (Option GatewayFrame)
  unfolding flush_one_inner
  flush_one written s =
      if is_closed s.phase then (s, err closed) else close_on_error (flush_one_inner written s)

abbrev pub has_body : GatewayFrame → Bool
has_body frame = is_some frame.body

-- A frame out of order closes the session.
abbrev pub in_order : Bool → Call (Unit {0})
in_order true s = (s, ok tt)
in_order false s = (record s { phase = closed_phase }, err invalid_sequence)

unfoldable pub check_sequence : ℕ → Call (Unit {0})
check_sequence sequence s = in_order (sequence == s.next_receive_sequence) s

-- What `receive_inner` does with a frame that was read.
unfoldable pub accept_frame : GatewayFrame → ℕ → Call Body
unfolding validate_frame_context apply_inbound check_sequence
accept_frame frame now = do
  s ← get
  lift (validate_frame frame s.enabled_critical_extensions)
  check_sequence frame.sequence
  next ← lift (ok_or (checked_add s.next_receive_sequence 1) integer_overflow)
  modify (λ t. record t { next_receive_sequence = next })
  check (validate_frame_context frame)
  body ← lift (ok_or frame.body missing_body)
  apply_inbound body now
  return body

module _ (decode_message : List ℕ → Option GatewayFrame) where
  unfoldable pub receive_inner : List ℕ → ℕ → Call Body
  unfolding accept_frame
  receive_inner input now = do
    s ← get
    fail_if (is_closed s.phase) closed
    r ← lift (read_frame decode_message has_body s.maximum_frame_size input)
    accept_frame r.0 now

  unfoldable pub receive : List ℕ → ℕ → Call Body
  unfolding receive_inner
  receive input now s = close_on_error (receive_inner input now s)
