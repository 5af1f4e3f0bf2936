-- ===== src/GatewayProtocol/Session/History/Refusals.antt =====
-- crates/gateway-protocol/src/session.rs: the calls that fail.
use vpn_ne_vpn.Prelude.{
  ℕ, min, length, ◌≡◌, refl, false, Result, ok, err, Option, some, List, arith, String,
}
use vpn_ne_vpn.Prelude.Keeps.{modify}
use vpn_ne_vpn.Prelude.Undo.{
  Undoes, undo_lift, undo_modify, undo_get, undo_check, undo_require, undo_fail_if, undo_bind,
  undo_then,
}
use vpn_ne_vpn.GatewayProtocol.Error.{ProtocolError}
use vpn_ne_vpn.GatewayProtocol.Messages.{
  Body, GatewayFrame, CloseCode, OpenTcpStream, TcpStreamRejected, ResolveDomain, ResolveResult,
  GoAway, rotate_session, session_rotated, ping, pong, error_frame,
}
use vpn_ne_vpn.GatewayProtocol.Flow
use vpn_ne_vpn.GatewayProtocol.Validation.Fields.{max_data_payload}
use vpn_ne_vpn.GatewayProtocol.Session.{Session}
use vpn_ne_vpn.GatewayProtocol.Session.Handshake.{mark_active, set_granted_capabilities}
use vpn_ne_vpn.GatewayProtocol.Session.Outbound.{
  queue_handshake, open_tcp, accept_tcp, reject_tcp, try_queue_data, grant_receive_credit,
  half_close, close_stream, resolve, send_resolve_result, queue_control, begin_go_away, item,
}
use vpn_ne_vpn.GatewayProtocol.Session.Atomic.{
  flow-IsReady, modify-IsReady, closing-IsReady, announce-Undoes, queue_control_body-Undoes,
  data-Undoes,
}
use vpn_ne_vpn.GatewayProtocol.Session.History.{
  Op, perform, refusal, failure, may_stop_halfway, queues_handshake, opens_tcp, accepts_tcp,
  rejects_tcp, queues_data, grants_credit, half_closes, closes_stream, resolves, sends_result,
  queues_control, goes_away, expires, flushes, receives, marks_active, narrows,
}

failure-err :
    {A : Type 0} (r : Result ProtocolError A) (e : ProtocolError) → failure r ≡ some e → r ≡ err e
failure-err (ok a) e h = cc h
failure-err (err x) e h = ground (arith, h)

-- A failure, read as the outcome of the call.
undone :
    {A : Type 0} (m : Session → Session × Result ProtocolError A) (s : Session) (e : ProtocolError)
    → Undoes m s
    → failure (m s).1 ≡ some e
    → (m s).0 ≡ s
undone m s e u h = u e (failure-err (m s).1 e h)

module _ (encode_message : GatewayFrame → List ℕ) (s : Session) where
  queue_control-Undoes : (body : Body) → Undoes (queue_control encode_message body) s
  unfolding queue_control
  queue_control-Undoes (rotate_session m) =
      undo_check _ _ s λ a. undo_check _ _ s λ b. queue_control_body-Undoes encode_message _ s
  queue_control-Undoes (session_rotated m) =
      undo_check _ _ s λ a. undo_check _ _ s λ b. queue_control_body-Undoes encode_message _ s
  queue_control-Undoes (ping n) = undo_check _ _ s λ a. queue_control_body-Undoes encode_message _ s
  queue_control-Undoes (pong n) = undo_check _ _ s λ a. queue_control_body-Undoes encode_message _ s
  queue_control-Undoes (error_frame m) =
      undo_check _ _ s λ a. queue_control_body-Undoes encode_message _ s
  queue_control-Undoes _ = undo_check _ _ s λ a. undo_lift _ s

  try_queue_data-Undoes :
      (id : ℕ) (payload : List ℕ) (now : ℕ)
      → Undoes (try_queue_data encode_message id payload now) s
  unfolding try_queue_data Flow.perform
  try_queue_data-Undoes id payload now = undo_check _ _ s λ a. undo_check _ _ s λ b.
      undo_require _ _ s (
        undo_fail_if _ _ _ s (
          undo_bind _ _ s λ accounted.
            data-Undoes (Flow.sends id (min (length payload) max_data_payload) now) id _
              (item _ accounted) s))

  queue_handshake-Undoes : (body : Body) → Undoes (queue_handshake encode_message body) s
  unfolding queue_handshake
  queue_handshake-Undoes body =
      undo_get _ s (undo_fail_if _ _ _ s (queue_control_body-Undoes encode_message body s))

  open_tcp-Undoes : (m : OpenTcpStream) (now : ℕ) → Undoes (open_tcp encode_message m now) s
  unfolding open_tcp Flow.perform
  open_tcp-Undoes m now = undo_check _ _ s λ a. undo_check _ _ s λ b.
      announce-Undoes encode_message _ _ s
        (flow-IsReady (Flow.opens_local m.stream_id m.initial_receive_window now))

  accept_tcp-Undoes : (id window now : ℕ) → Undoes (accept_tcp encode_message id window now) s
  unfolding accept_tcp Flow.perform
  accept_tcp-Undoes id window now = undo_check _ _ s λ a.
      undo_check _ _ s
        λ b. announce-Undoes encode_message _ _ s (flow-IsReady (Flow.accepts id window now))

  reject_tcp-Undoes : (m : TcpStreamRejected) → Undoes (reject_tcp encode_message m) s
  unfolding reject_tcp Flow.perform
  reject_tcp-Undoes m = undo_check _ _ s λ a.
      undo_check _ _ s
        λ b. announce-Undoes encode_message _ _ s (flow-IsReady (Flow.closes m.stream_id))

  grant_receive_credit-Undoes :
      (id credit now : ℕ) → Undoes (grant_receive_credit encode_message id credit now) s
  unfolding grant_receive_credit Flow.perform
  grant_receive_credit-Undoes id credit now = undo_check _ _ s λ a.
      undo_check _ _ s
        λ b. announce-Undoes encode_message _ _ s (flow-IsReady (Flow.grants id credit now))

  half_close-Undoes : (id now : ℕ) → Undoes (half_close encode_message id now) s
  unfolding half_close Flow.perform
  half_close-Undoes id now = undo_check _ _ s λ a.
      undo_check _ _ s
        λ b. announce-Undoes encode_message _ _ s (flow-IsReady (Flow.half_closes id now))

  close_stream-Undoes : (id : ℕ) (code : CloseCode) → Undoes (close_stream encode_message id code) s
  unfolding close_stream Flow.perform
  close_stream-Undoes id code = undo_check _ _ s λ a.
      undo_check _ _ s
        λ b. undo_fail_if _ _ _ s (announce-Undoes encode_message _ _ s (closing-IsReady id))

  resolve-Undoes : (m : ResolveDomain) → Undoes (resolve encode_message m) s
  unfolding resolve
  resolve-Undoes m = undo_check _ _ s λ a. undo_check _ _ s λ b.
      undo_get _ s
        (undo_fail_if _ _ _ s (announce-Undoes encode_message _ _ s (modify-IsReady _ (λ t. refl))))

  send_resolve_result-Undoes : (m : ResolveResult) → Undoes (send_resolve_result encode_message m) s
  unfolding send_resolve_result
  send_resolve_result-Undoes m = undo_check _ _ s λ a. undo_check _ _ s λ b.
      undo_get _ s
        (undo_fail_if _ _ _ s (announce-Undoes encode_message _ _ s (modify-IsReady _ (λ t. refl))))

  begin_go_away-Undoes : (m : GoAway) → Undoes (begin_go_away encode_message m) s
  unfolding begin_go_away modify
  begin_go_away-Undoes m =
      undo_check _ _ s
        λ a. undo_then _ _ s (queue_control_body-Undoes encode_message _ s) λ b. (tt, refl)

mark_active-Undoes : (s : Session) → Undoes mark_active s
unfolding mark_active
mark_active-Undoes s = undo_get _ s (undo_fail_if _ _ _ s (undo_modify _ s))

set_granted-Undoes :
    (granted : List String) (s : Session) → Undoes (set_granted_capabilities granted) s
unfolding set_granted_capabilities
set_granted-Undoes granted s =
    undo_require _ _ s (undo_get _ s (undo_fail_if _ _ _ s (undo_modify _ s)))

module _ (encode_message : GatewayFrame → List ℕ)
    (decode_message : List ℕ → Option GatewayFrame) where
  -- A call that fails leaves the session as it was, unless it is one of the three that may stop
  -- half-way: the sweep of idle streams, the flush and the receipt of a frame.
  pub refusal_atomic :
      (o : Op) (s : Session) (e : ProtocolError)
      → may_stop_halfway o ≡ false
      → refusal encode_message decode_message o s ≡ some e
      → perform encode_message decode_message o s ≡ s
  unfolding refusal perform
  refusal_atomic (queues_handshake body) s e _ h =
      undone (queue_handshake encode_message body) s e
        (queue_handshake-Undoes encode_message s body) h
  refusal_atomic (opens_tcp m now) s e _ h =
      undone (open_tcp encode_message m now) s e (open_tcp-Undoes encode_message s m now) h
  refusal_atomic (accepts_tcp id w now) s e _ h =
      undone (accept_tcp encode_message id w now) s e (accept_tcp-Undoes encode_message s id w now)
        h
  refusal_atomic (rejects_tcp m) s e _ h =
      undone (reject_tcp encode_message m) s e (reject_tcp-Undoes encode_message s m) h
  refusal_atomic (queues_data id p now) s e _ h =
      undone (try_queue_data encode_message id p now) s e
        (try_queue_data-Undoes encode_message s id p now) h
  refusal_atomic (grants_credit id c now) s e _ h =
      undone (grant_receive_credit encode_message id c now) s e
        (grant_receive_credit-Undoes encode_message s id c now) h
  refusal_atomic (half_closes id now) s e _ h =
      undone (half_close encode_message id now) s e (half_close-Undoes encode_message s id now) h
  refusal_atomic (closes_stream id c) s e _ h =
      undone (close_stream encode_message id c) s e (close_stream-Undoes encode_message s id c) h
  refusal_atomic (resolves m) s e _ h =
      undone (resolve encode_message m) s e (resolve-Undoes encode_message s m) h
  refusal_atomic (sends_result m) s e _ h =
      undone (send_resolve_result encode_message m) s e
        (send_resolve_result-Undoes encode_message s m) h
  refusal_atomic (queues_control body) s e _ h =
      undone (queue_control encode_message body) s e (queue_control-Undoes encode_message s body) h
  refusal_atomic (goes_away m) s e _ h =
      undone (begin_go_away encode_message m) s e (begin_go_away-Undoes encode_message s m) h
  refusal_atomic marks_active s e _ h = undone mark_active s e (mark_active-Undoes s) h
  refusal_atomic (narrows granted) s e _ h =
      undone (set_granted_capabilities granted) s e (set_granted-Undoes granted s) h
  refusal_atomic (expires now) s e n h = absurd (cc n)
  refusal_atomic (flushes w) s e n h = absurd (cc n)
  refusal_atomic (receives i now) s e n h = absurd (cc n)
