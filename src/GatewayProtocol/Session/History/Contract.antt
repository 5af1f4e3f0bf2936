-- ===== src/GatewayProtocol/Session/History/Contract.antt =====
-- crates/gateway-protocol/src/session.rs: what every history of a session's calls keeps.
use vpn_ne_vpn.Prelude.{ℕ, Option, List, [], ◌∷◌}
use vpn_ne_vpn.GatewayProtocol.Messages.{GatewayFrame}
use vpn_ne_vpn.GatewayProtocol.Session.{Session}
use vpn_ne_vpn.GatewayProtocol.Session.Advance.{Advances, Advances_refl, Advances_trans}
use vpn_ne_vpn.GatewayProtocol.Session.Calls.{
  queue_handshake-Keeps, open_tcp-Keeps, accept_tcp-Keeps, reject_tcp-Keeps, try_queue_data-Keeps,
  grant-Keeps, half_close-Keeps, close_stream-Keeps, resolve-Keeps, send_resolve_result-Keeps,
  queue_control-Keeps, expire-Keeps,
}
use vpn_ne_vpn.GatewayProtocol.Session.Traffic.{
  begin_go_away-Keeps, flush_one-Keeps, receive-Keeps, mark_active-Keeps, set_granted-Keeps,
}
use vpn_ne_vpn.GatewayProtocol.Session.History.{
  Op, perform, run, queues_handshake, opens_tcp, accepts_tcp, rejects_tcp, queues_data,
  grants_credit, half_closes, closes_stream, resolves, sends_result, queues_control, goes_away,
  expires, flushes, receives, marks_active, narrows,
}

module _ (encode_message : GatewayFrame → List ℕ)
    (decode_message : List ℕ → Option GatewayFrame) where
  pub perform-Advances :
      (s : Session) (o : Op) → Advances s (perform encode_message decode_message o s)
  unfolding perform
  perform-Advances s (queues_handshake body) = (queue_handshake-Keeps encode_message body).moves s
  perform-Advances s (opens_tcp m now) = (open_tcp-Keeps encode_message m now).moves s
  perform-Advances s (accepts_tcp id w now) = (accept_tcp-Keeps encode_message id w now).moves s
  perform-Advances s (rejects_tcp m) = (reject_tcp-Keeps encode_message m).moves s
  perform-Advances s (queues_data id p now) = (try_queue_data-Keeps encode_message id p now).moves s
  perform-Advances s (grants_credit id c now) = (grant-Keeps encode_message id c now).moves s
  perform-Advances s (half_closes id now) = (half_close-Keeps encode_message id now).moves s
  perform-Advances s (closes_stream id code) = (close_stream-Keeps encode_message id code).moves s
  perform-Advances s (resolves m) = (resolve-Keeps encode_message m).moves s
  perform-Advances s (sends_result m) = (send_resolve_result-Keeps encode_message m).moves s
  perform-Advances s (queues_control body) = (queue_control-Keeps encode_message body).moves s
  perform-Advances s (goes_away m) = (begin_go_away-Keeps encode_message m).moves s
  perform-Advances s (expires now) = (expire-Keeps encode_message now).moves s
  perform-Advances s (flushes written) = (flush_one-Keeps encode_message written).moves s
  perform-Advances s (receives input now) = (receive-Keeps decode_message input now).moves s
  perform-Advances s marks_active = mark_active-Keeps.moves s
  perform-Advances s (narrows granted) = (set_granted-Keeps granted).moves s

  -- Whatever calls but `configure_negotiated` are made of a session, in any order and whether or not
  -- they succeed: its ledger and its scheduler are changed by their own calls alone, the phase stays or
  -- ages (handshake, active, draining, closed), the role, the session's id and the selected version
  -- stay, no sequence number falls and no capability is gained.
  pub run-Advances :
      (s : Session) (os : List Op) → Advances s (run encode_message decode_message s os)
  unfolding run
  run-Advances s [] = Advances_refl s
  run-Advances s (o ∷ os) =
      Advances_trans s _ _ (perform-Advances s o)
        (run-Advances (perform encode_message decode_message o s) os)
