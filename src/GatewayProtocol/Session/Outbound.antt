-- ===== src/GatewayProtocol/Session/Outbound.antt =====
-- crates/gateway-protocol/src/session.rs: the calls by which a side sends. `encode_message` is the
-- protobuf library's `encode_to_vec`, whose length is `encoded_len`. `Instant::now()` of the ledger is
-- an argument.
use vpn_ne_vpn.Prelude.{
  ℕ, min, Bool, true, false, not, ◌||◌, leb, Result, err, ok_or, Option, some, none, List, [], ◌∷◌,
  length, null, take, u64_max, u32_max, checked_add, ◌also◌,
}
use vpn_ne_vpn.Prelude.Keeps.{◌>>=◌, ◌>>◌, return, get, modify, lift, fail_if, check}
use vpn_ne_vpn.Prelude.Ints.{is_zero}
use vpn_ne_vpn.Prelude.Maps.{nat_eq}
use vpn_ne_vpn.Prelude.Sets.{contains, add, discard}
use vpn_ne_vpn.GatewayProtocol.Error.{
  ProtocolError, invalid_field, protocol_violation, integer_overflow, invalid_stream_id,
}
use vpn_ne_vpn.GatewayProtocol.Negotiation.{version}
use vpn_ne_vpn.GatewayProtocol.Messages
use vpn_ne_vpn.GatewayProtocol.Messages.{
  Body, GatewayFrame, OpenTcpStream, TcpStreamRejected, ResolveDomain, ResolveResult, GoAway,
  CloseCode, close_code_number, open_tcp_stream, tcp_stream_opened, tcp_stream_rejected, data_frame,
  window_update, resolve_domain, resolve_result, rotate_session, session_rotated, ping, pong,
  error_frame, go_away,
}
use vpn_ne_vpn.GatewayProtocol.Validation.{validate_frame}
use vpn_ne_vpn.GatewayProtocol.Validation.Fields.{max_data_payload}
use vpn_ne_vpn.GatewayProtocol.Flow
use vpn_ne_vpn.GatewayProtocol.Flow.{validate_stream_id, expire_idle}
use vpn_ne_vpn.GatewayProtocol.Scheduler.{
  OutboundItem, can_enqueue_control, can_enqueue_stream, enqueue_control, enqueue_stream,
  cancel_stream,
}
use vpn_ne_vpn.GatewayProtocol.Session.{
  SessionPhase, Call, draining, tcp_connect_v1, flow_control_v1, resolve_domain_v1,
  session_rotation_v1, require_active_client, require_active_server, require_active_or_draining,
  require_capability, with_flow, with_scheduler, awaiting_server_hello, awaiting_client_hello,
  awaiting_authentication, awaiting_authentication_result,
}

abbrev pub frame_accounting_overhead : ℕ
frame_accounting_overhead = 128

abbrev pub zeros : List ℕ
zeros = 0 ∷ 0 ∷ 0 ∷ 0 ∷ 0 ∷ 0 ∷ 0 ∷ 0 ∷ 0 ∷ 0 ∷ 0 ∷ 0 ∷ 0 ∷ 0 ∷ 0 ∷ 0 ∷ []

abbrev pub in_handshake : SessionPhase → Bool
in_handshake awaiting_server_hello = true
in_handshake awaiting_client_hello = true
in_handshake awaiting_authentication = true
in_handshake awaiting_authentication_result = true
in_handshake _ = false

abbrev pub item : Body → ℕ → OutboundItem Body
item body size = record { body = body; accounted_bytes = size }

abbrev pub cancel_queued : ℕ → Call (Unit {0})
cancel_queued id = modify (λ s. record s { scheduler = cancel_stream id s.scheduler })

module _ (encode_message : GatewayFrame → List ℕ) where
  -- The frame by which a body is measured has the longest sequence and version.
  unfoldable pub accounted_body_size : Body → Result ProtocolError ℕ
  accounted_body_size body =
      let frame : GatewayFrame = record {
        sequence = u64_max;
        version = some (version u32_max u32_max);
        critical_extension_ids = [];
        session_id = zeros;
        body = some body;
      } in
      validate_frame frame []
      also ok_or (checked_add (length (encode_message frame)) frame_accounting_overhead)
          integer_overflow

  unfoldable pub queue_control_body : Body → Call (Unit {0})
  queue_control_body body = do
    size ← lift (accounted_body_size body)
    with_scheduler (enqueue_control (item body size))

  -- The steps that the typed calls share: measure, ask the scheduler, change the state, queue.
  abbrev pub announce : Body → Call (Unit {0}) → Call (Unit {0})
  announce body change = do
    size ← lift (accounted_body_size body)
    check (λ s. can_enqueue_control s.scheduler size)
    change
    with_scheduler (enqueue_control (item body size))

  unfoldable pub queue_handshake : Body → Call (Unit {0})
  unfolding queue_control_body
  queue_handshake body = do
    s ← get
    fail_if (not (in_handshake s.phase)) (protocol_violation "handshake already complete")
    queue_control_body body

  unfoldable pub open_tcp : OpenTcpStream → ℕ → Call (Unit {0})
  open_tcp m now = do
    check require_active_client
    check (require_capability tcp_connect_v1)
    announce (open_tcp_stream m)
        (with_flow (Flow.open_local m.stream_id m.initial_receive_window now))

  unfoldable pub accept_tcp : ℕ → ℕ → ℕ → Call (Unit {0})
  accept_tcp id window now = do
    check require_active_server
    check (require_capability tcp_connect_v1)
    announce (tcp_stream_opened (record { stream_id = id; initial_receive_window = window }))
        (with_flow (Flow.accept_remote_open id window now))

  unfoldable pub reject_tcp : TcpStreamRejected → Call (Unit {0})
  reject_tcp m = do
    check require_active_server
    check (require_capability tcp_connect_v1)
    announce (tcp_stream_rejected m) (with_flow (Flow.reject_or_close m.stream_id))

  unfoldable pub try_queue_data : ℕ → List ℕ → ℕ → Call ℕ
  try_queue_data id payload now = do
    check require_active_or_draining
    check (require_capability tcp_connect_v1)
    lift (validate_stream_id id)
    fail_if (null payload) (invalid_field "data_payload")
    let consumed = min (length payload) max_data_payload
    let body = data_frame (record { stream_id = id; payload = take consumed payload })
    accounted ← lift (accounted_body_size body)
    check (λ s. can_enqueue_stream s.scheduler id accounted)
    with_flow (Flow.debit_send id consumed now)
    with_scheduler (enqueue_stream id (item body accounted))
    return consumed

  unfoldable pub grant_receive_credit : ℕ → ℕ → ℕ → Call (Unit {0})
  grant_receive_credit id credit now = do
    check require_active_or_draining
    check (require_capability flow_control_v1)
    announce (window_update (record { stream_id = id; credit = credit }))
        (with_flow (Flow.grant_receive_credit id credit now))

  unfoldable pub half_close : ℕ → ℕ → Call (Unit {0})
  half_close id now = do
    check require_active_or_draining
    check (require_capability tcp_connect_v1)
    announce (Messages.half_close (record { stream_id = id }))
        (with_flow (Flow.local_half_close id now))

  unfoldable pub close_stream : ℕ → CloseCode → Call (Unit {0})
  close_stream id code = do
    check require_active_or_draining
    check (require_capability tcp_connect_v1)
    fail_if (is_zero (close_code_number code)) (invalid_field "close_code")
    announce (Messages.close_stream (record { stream_id = id; code = close_code_number code }))
        (do with_flow (Flow.reject_or_close id); cancel_queued id)

  unfoldable pub resolve : ResolveDomain → Call (Unit {0})
  resolve m = do
    check require_active_client
    check (require_capability resolve_domain_v1)
    s ← get
    fail_if
        (leb m.query_id s.maximum_seen_local_query_id
          || leb s.limits.maximum_outstanding_resolves (length s.local_resolves))
        invalid_stream_id
    announce (resolve_domain m) (
        modify λ t. record t {
          maximum_seen_local_query_id = m.query_id;
          local_resolves = add m.query_id t.local_resolves;
        })

  unfoldable pub send_resolve_result : ResolveResult → Call (Unit {0})
  send_resolve_result m = do
    check require_active_server
    check (require_capability resolve_domain_v1)
    s ← get
    fail_if (not (contains s.remote_resolves m.query_id)) invalid_stream_id
    announce (resolve_result m)
        (modify λ t. record t { remote_resolves = discard m.query_id t.remote_resolves })

  abbrev queue_body : Body → Call (Unit {0})
  queue_body (rotate_session m) = do
    check (require_capability session_rotation_v1)
    queue_control_body (rotate_session m)
  queue_body (session_rotated m) = do
    check (require_capability session_rotation_v1)
    queue_control_body (session_rotated m)
  queue_body (ping n) = queue_control_body (ping n)
  queue_body (pong n) = queue_control_body (pong n)
  queue_body (error_frame m) = queue_control_body (error_frame m)
  queue_body _ = lift (err (protocol_violation "message requires a typed session method"))

  unfoldable pub queue_control : Body → Call (Unit {0})
  unfolding queue_control_body
  queue_control body = do check require_active_or_draining; queue_body body

  unfoldable pub begin_go_away : GoAway → Call (Unit {0})
  unfolding queue_control_body
  begin_go_away m = do
    check require_active_or_draining
    queue_control_body (go_away m)
    modify (λ s. record s { phase = draining })

  unfoldable pub close_all : List ℕ → Call (Unit {0})
  close_all [] = return tt
  close_all (id ∷ ids) = do close_stream id CloseCode.timeout; close_all ids

  abbrev expired : Option Flow.FlowController → ℕ → ℕ → List ℕ
  expired none now timeout = []
  expired (some f) now timeout = expire_idle f now timeout

  -- `now` is in milliseconds here, as the idle timeout is.
  unfoldable pub expire_idle_streams : ℕ → Call (List ℕ)
  unfolding close_all
  expire_idle_streams now = do
    s ← get
    let ids = expired s.flow now s.limits.idle_stream_timeout
    close_all ids
    return ids
