-- ===== src/GatewayProtocol/Session/Calls.antt =====
-- crates/gateway-protocol/src/session.rs: every call but `configure_negotiated` advances the session.
use vpn_ne_vpn.Prelude.{ℕ, min, length, List, [], ◌∷◌}
use vpn_ne_vpn.Prelude.Keeps.{Keeps, modify-Keeps}
use vpn_ne_vpn.GatewayProtocol.Messages.{
  Body, GatewayFrame, OpenTcpStream, TcpStreamRejected, ResolveDomain, ResolveResult, CloseCode,
  rotate_session, session_rotated, ping, pong, error_frame,
}
use vpn_ne_vpn.GatewayProtocol.Flow
use vpn_ne_vpn.GatewayProtocol.Session.Advance.{advancing}
use vpn_ne_vpn.GatewayProtocol.Validation.Fields.{max_data_payload}
use vpn_ne_vpn.GatewayProtocol.Session.Steps.{
  ◌then◌, ◌bind◌, checked, lifted, failed, got, returned, flow-Keeps, enqueue_control-Keeps,
  enqueue_stream-Keeps, cancel-Keeps, announce-Keeps, similar,
}
use vpn_ne_vpn.GatewayProtocol.Session.Outbound.{
  queue_control_body, queue_handshake, open_tcp, accept_tcp, reject_tcp, try_queue_data,
  grant_receive_credit, half_close, close_stream, resolve, send_resolve_result, queue_control,
  expire_idle_streams, close_all,
}

module _ (encode_message : GatewayFrame → List ℕ) where
  pub open_tcp-Keeps :
      (m : OpenTcpStream) (now : ℕ) → Keeps advancing (open_tcp encode_message m now)
  unfolding open_tcp Flow.perform
  open_tcp-Keeps m now =
      checked _
      then checked _
      then announce-Keeps encode_message _ _
          (flow-Keeps (Flow.opens_local m.stream_id m.initial_receive_window now))

  pub accept_tcp-Keeps :
      (id window now : ℕ) → Keeps advancing (accept_tcp encode_message id window now)
  unfolding accept_tcp Flow.perform
  accept_tcp-Keeps id window now =
      checked _
      then checked _
      then announce-Keeps encode_message _ _ (flow-Keeps (Flow.accepts id window now))

  pub reject_tcp-Keeps : (m : TcpStreamRejected) → Keeps advancing (reject_tcp encode_message m)
  unfolding reject_tcp Flow.perform
  reject_tcp-Keeps m =
      checked _
      then checked _
      then announce-Keeps encode_message _ _ (flow-Keeps (Flow.closes m.stream_id))

  pub try_queue_data-Keeps :
      (id : ℕ) (payload : List ℕ) (now : ℕ)
      → Keeps advancing (try_queue_data encode_message id payload now)
  unfolding try_queue_data Flow.perform
  try_queue_data-Keeps id payload now =
      checked _ then checked _ then lifted _ then failed _ _ then lifted _ bind λ accounted.
      checked _
      then flow-Keeps (Flow.sends id (min (length payload) max_data_payload) now)
      then enqueue_stream-Keeps id _
      then returned _

  pub grant-Keeps :
      (id credit now : ℕ) → Keeps advancing (grant_receive_credit encode_message id credit now)
  unfolding grant_receive_credit Flow.perform
  grant-Keeps id credit now =
      checked _
      then checked _
      then announce-Keeps encode_message _ _ (flow-Keeps (Flow.grants id credit now))

  pub half_close-Keeps : (id now : ℕ) → Keeps advancing (half_close encode_message id now)
  unfolding half_close Flow.perform
  half_close-Keeps id now =
      checked _
      then checked _
      then announce-Keeps encode_message _ _ (flow-Keeps (Flow.half_closes id now))

  pub close_stream-Keeps :
      (id : ℕ) (code : CloseCode) → Keeps advancing (close_stream encode_message id code)
  unfolding close_stream Flow.perform
  close_stream-Keeps id code =
      checked _
      then checked _
      then failed _ _
      then announce-Keeps encode_message _ _ (flow-Keeps (Flow.closes id) then cancel-Keeps id)

  pub queue_control_body-Keeps :
      (body : Body) → Keeps advancing (queue_control_body encode_message body)
  unfolding queue_control_body
  queue_control_body-Keeps body = lifted _ bind λ size. enqueue_control-Keeps _

  pub queue_handshake-Keeps : (body : Body) → Keeps advancing (queue_handshake encode_message body)
  unfolding queue_handshake
  queue_handshake-Keeps body = got bind λ s. failed _ _ then queue_control_body-Keeps body

  pub resolve-Keeps : (m : ResolveDomain) → Keeps advancing (resolve encode_message m)
  unfolding resolve
  resolve-Keeps m = checked _ then checked _ then got bind λ s.
      failed _ _
      then announce-Keeps encode_message _ _ (modify-Keeps advancing _ λ t. similar t _ _ _ _)

  pub send_resolve_result-Keeps :
      (m : ResolveResult) → Keeps advancing (send_resolve_result encode_message m)
  unfolding send_resolve_result
  send_resolve_result-Keeps m = checked _ then checked _ then got bind λ s.
      failed _ _
      then announce-Keeps encode_message _ _ (modify-Keeps advancing _ λ t. similar t _ _ _ _)

  pub queue_control-Keeps : (body : Body) → Keeps advancing (queue_control encode_message body)
  unfolding queue_control
  queue_control-Keeps (rotate_session m) = checked _ then checked _ then queue_control_body-Keeps _
  queue_control-Keeps (session_rotated m) = checked _ then checked _ then queue_control_body-Keeps _
  queue_control-Keeps (ping n) = checked _ then queue_control_body-Keeps _
  queue_control-Keeps (pong n) = checked _ then queue_control_body-Keeps _
  queue_control-Keeps (error_frame m) = checked _ then queue_control_body-Keeps _
  queue_control-Keeps _ = checked _ then lifted _

  pub close_all-Keeps : (ids : List ℕ) → Keeps advancing (close_all encode_message ids)
  unfolding close_all
  close_all-Keeps [] = returned _
  close_all-Keeps (id ∷ ids) = close_stream-Keeps id CloseCode.timeout then close_all-Keeps ids

  pub expire-Keeps : (now : ℕ) → Keeps advancing (expire_idle_streams encode_message now)
  unfolding expire_idle_streams
  expire-Keeps now = got bind λ s. close_all-Keeps _ then returned _
