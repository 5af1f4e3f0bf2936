-- ===== src/GatewayProtocol/Session/History.antt =====
-- crates/gateway-protocol/src/session.rs: histories of a session's calls. A call that fails leaves the
-- session as it stood when it failed, and the history goes on from there.
pub mod Contract
pub mod Refusals
pub mod Sequence
pub mod Soundness
use vpn_ne_vpn.Prelude.{
  ℕ, Result, ok, err, some, none, Bool, true, false, List, [], ◌∷◌, String, Option,
}
use vpn_ne_vpn.GatewayProtocol.Error.{ProtocolError}
use vpn_ne_vpn.GatewayProtocol.Messages.{
  Body, GatewayFrame, OpenTcpStream, TcpStreamRejected, ResolveDomain, ResolveResult, GoAway,
  CloseCode,
}
use vpn_ne_vpn.GatewayProtocol.Session.{Session}
use vpn_ne_vpn.GatewayProtocol.Session.Handshake.{
  NegotiatedParameters, configure_negotiated, mark_active, set_granted_capabilities,
}
use vpn_ne_vpn.GatewayProtocol.Session.Outbound.{
  queue_handshake, open_tcp, accept_tcp, reject_tcp, try_queue_data, grant_receive_credit,
  half_close, close_stream, resolve, send_resolve_result, queue_control, begin_go_away,
  expire_idle_streams,
}
use vpn_ne_vpn.GatewayProtocol.Session.Inbound.{flush_one, receive}

-- What the endpoints may ask of a session, with the bytes and the times that reach it.
pub data Op : Type 0 where
  queues_handshake : Body → Op
  opens_tcp : OpenTcpStream → ℕ → Op
  accepts_tcp : ℕ → ℕ → ℕ → Op
  rejects_tcp : TcpStreamRejected → Op
  queues_data : ℕ → List ℕ → ℕ → Op
  grants_credit : ℕ → ℕ → ℕ → Op
  half_closes : ℕ → ℕ → Op
  closes_stream : ℕ → CloseCode → Op
  resolves : ResolveDomain → Op
  sends_result : ResolveResult → Op
  queues_control : Body → Op
  goes_away : GoAway → Op
  expires : ℕ → Op
  flushes : Result ProtocolError (Unit {0}) → Op
  receives : List ℕ → ℕ → Op
  marks_active : Op
  narrows : List String → Op

-- The calls that may stop half-way: a sweep of many streams, and the two that move a frame.
abbrev pub may_stop_halfway : Op → Bool
may_stop_halfway (expires now) = true
may_stop_halfway (flushes written) = true
may_stop_halfway (receives input now) = true
may_stop_halfway _ = false

abbrev pub failure : {A : Type 0} → Result ProtocolError A → Option ProtocolError
failure (ok a) = none
failure (err e) = some e

-- The handshake's `configure_negotiated` replaces the ledger, so it stands apart.
pub data Event : Type 0 where
  asks : Op → Event
  configures : NegotiatedParameters → Event

module _ (encode_message : GatewayFrame → List ℕ)
    (decode_message : List ℕ → Option GatewayFrame) where
  unfoldable pub perform : Op → Session → Session
  unfolding queue_handshake open_tcp accept_tcp reject_tcp try_queue_data grant_receive_credit
      half_close close_stream resolve send_resolve_result queue_control begin_go_away
      expire_idle_streams flush_one receive mark_active set_granted_capabilities
  perform (queues_handshake body) s = (queue_handshake encode_message body s).0
  perform (opens_tcp m now) s = (open_tcp encode_message m now s).0
  perform (accepts_tcp id window now) s = (accept_tcp encode_message id window now s).0
  perform (rejects_tcp m) s = (reject_tcp encode_message m s).0
  perform (queues_data id payload now) s = (try_queue_data encode_message id payload now s).0
  perform (grants_credit id credit now) s = (grant_receive_credit encode_message id credit now s).0
  perform (half_closes id now) s = (half_close encode_message id now s).0
  perform (closes_stream id code) s = (close_stream encode_message id code s).0
  perform (resolves m) s = (resolve encode_message m s).0
  perform (sends_result m) s = (send_resolve_result encode_message m s).0
  perform (queues_control body) s = (queue_control encode_message body s).0
  perform (goes_away m) s = (begin_go_away encode_message m s).0
  perform (expires now) s = (expire_idle_streams encode_message now s).0
  perform (flushes written) s = (flush_one encode_message written s).0
  perform (receives input now) s = (receive decode_message input now s).0
  perform marks_active s = (mark_active s).0
  perform (narrows granted) s = (set_granted_capabilities granted s).0

  -- Why the call failed, if it did.
  unfoldable pub refusal : Op → Session → Option ProtocolError
  unfolding queue_handshake open_tcp accept_tcp reject_tcp try_queue_data grant_receive_credit
      half_close close_stream resolve send_resolve_result queue_control begin_go_away
      expire_idle_streams flush_one receive mark_active set_granted_capabilities
  refusal (queues_handshake body) s = failure (queue_handshake encode_message body s).1
  refusal (opens_tcp m now) s = failure (open_tcp encode_message m now s).1
  refusal (accepts_tcp id window now) s = failure (accept_tcp encode_message id window now s).1
  refusal (rejects_tcp m) s = failure (reject_tcp encode_message m s).1
  refusal (queues_data id payload now) s =
      failure (try_queue_data encode_message id payload now s).1
  refusal (grants_credit id credit now) s =
      failure (grant_receive_credit encode_message id credit now s).1
  refusal (half_closes id now) s = failure (half_close encode_message id now s).1
  refusal (closes_stream id code) s = failure (close_stream encode_message id code s).1
  refusal (resolves m) s = failure (resolve encode_message m s).1
  refusal (sends_result m) s = failure (send_resolve_result encode_message m s).1
  refusal (queues_control body) s = failure (queue_control encode_message body s).1
  refusal (goes_away m) s = failure (begin_go_away encode_message m s).1
  refusal (expires now) s = failure (expire_idle_streams encode_message now s).1
  refusal (flushes written) s = failure (flush_one encode_message written s).1
  refusal (receives input now) s = failure (receive decode_message input now s).1
  refusal marks_active s = failure (mark_active s).1
  refusal (narrows granted) s = failure (set_granted_capabilities granted s).1

  unfoldable pub run : Session → List Op → Session
  unfolding perform
  run s [] = s
  run s (o ∷ os) = run (perform o s) os

  abbrev pub happens : Event → Session → Session
  happens (asks o) s = perform o s
  happens (configures p) s = (configure_negotiated p s).0

  unfoldable pub live : Session → List Event → Session
  unfolding perform configure_negotiated
  live s [] = s
  live s (e ∷ es) = live (happens e s) es
