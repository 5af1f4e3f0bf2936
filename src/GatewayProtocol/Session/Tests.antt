-- ===== src/GatewayProtocol/Session/Tests.antt =====
-- A client's session in use, and the theorems of sessions at concrete calls. Frames are encoded to eight
-- bytes here, and every input is read as a ping with number 1.
use vpn_ne_vpn.Prelude.{
  Result, err, ◌⊎◌, ℕ, ◌≡◌, ◌≢◌, refl, ok, Option, some, none, List, [], ◌∷◌, arith, inl,
}
use vpn_ne_vpn.Prelude.Maps.{nat_eq, string_eq}
use vpn_ne_vpn.Prelude.Keeps.{◌>>=◌, ◌>>◌, get, lift, fail_if, check, modify, return}
use vpn_ne_vpn.GatewayProtocol.Error.{ProtocolError, protocol_violation, closed}
use vpn_ne_vpn.GatewayProtocol.Limits.{default, validate}
use vpn_ne_vpn.GatewayProtocol.Negotiation.{version}
use vpn_ne_vpn.GatewayProtocol.Messages.{Body, GatewayFrame, OpenTcpStream, hostname, ping}
use vpn_ne_vpn.GatewayProtocol.Flow.{FlowController, validate_stream_id}
use vpn_ne_vpn.GatewayProtocol.Flow
use vpn_ne_vpn.GatewayProtocol.Scheduler
use vpn_ne_vpn.GatewayProtocol.Negotiation.Capabilities.{validate_capabilities}
use vpn_ne_vpn.GatewayProtocol.Validation.{validate_frame}
use vpn_ne_vpn.GatewayProtocol.Validation.Fields.{
  bounded_range, validate_hostname, validate_timeout, validate_stream_window,
}
use vpn_ne_vpn.GatewayProtocol.Validation.Streams.{validate_open_tcp}
use vpn_ne_vpn.GatewayProtocol.Session.Outbound.{accounted_body_size}
use vpn_ne_vpn.GatewayProtocol.Scheduler.Invariant.{IsValid, new-IsValid}
use vpn_ne_vpn.GatewayProtocol.Scheduler.Enqueue.{enqueue_control-IsValid}
use vpn_ne_vpn.GatewayProtocol.Scheduler.Drain.{frames}
use vpn_ne_vpn.GatewayProtocol.Session.Flush.{flush_rounds, flush_all}
use vpn_ne_vpn.GatewayProtocol.Session.Flush.Drained.{flush_all_drains}
use vpn_ne_vpn.GatewayProtocol.Scheduler.{
  OutboundItem, FairScheduler, can_enqueue_control, enqueue_control,
}
use vpn_ne_vpn.GatewayProtocol.Session.{
  Session, client, active, awaiting_server_hello, awaiting_authentication_result, new_client,
  tcp_connect_v1, require_active_client, require_capability, with_flow, with_scheduler,
  require_active_or_draining,
}
use vpn_ne_vpn.GatewayProtocol.Session.Handshake.{NegotiatedParameters}
use vpn_ne_vpn.GatewayProtocol.Session.Inbound.{accept_frame, check_sequence, apply_active_inbound}
use vpn_ne_vpn.GatewayProtocol.Session.Advance.{Advances}
use vpn_ne_vpn.GatewayProtocol.Session.History.{
  Op, Event, asks, configures, run, live, perform, refusal, opens_tcp, queues_data, flushes,
  receives, marks_active, narrows, grants_credit,
}
use vpn_ne_vpn.GatewayProtocol.Session.History.Contract.{run-Advances}
use vpn_ne_vpn.GatewayProtocol.Session.History.Sequence.{accept_frame_once}
use vpn_ne_vpn.GatewayProtocol.Session.History.Soundness.{IsSound, new-live-IsSound}
use vpn_ne_vpn.GatewayProtocol.Session.History.Refusals.{refusal_atomic}

abbrev encoded : GatewayFrame → List ℕ
encoded frame = 1 ∷ 2 ∷ 3 ∷ 4 ∷ 5 ∷ 6 ∷ 7 ∷ 8 ∷ []

abbrev nonce : List ℕ
nonce = 9 ∷ 9 ∷ 9 ∷ 9 ∷ 9 ∷ 9 ∷ 9 ∷ 9 ∷ []

abbrev identity : List ℕ
identity = 1 ∷ 2 ∷ 3 ∷ 4 ∷ 5 ∷ 6 ∷ 7 ∷ 8 ∷ 9 ∷ 10 ∷ 11 ∷ 12 ∷ 13 ∷ 14 ∷ 15 ∷ 16 ∷ []

abbrev pinged : GatewayFrame
pinged = record {
  sequence = 1;
  version = some (version 1 0);
  critical_extension_ids = [];
  session_id = identity;
  body = some (ping nonce);
}

abbrev decoded : List ℕ → Option GatewayFrame
decoded input = some pinged

abbrev queue : FairScheduler Body
queue = record {
  control = [];
  streams = [];
  per_stream_bytes = [];
  active = [];
  queued_bytes = 0;
  maximum_queued_bytes = 8388608;
  maximum_queued_bytes_per_stream = 262144;
  maximum_control_frames = 256;
  control_burst = 0;
}

abbrev fresh : Session
fresh = record {
  local_role = client;
  phase = awaiting_server_hello;
  limits = default;
  maximum_frame_size = 65536;
  outbound_version = version 1 0;
  selected_version = none;
  session_id = [];
  next_send_sequence = 1;
  next_receive_sequence = 1;
  enabled_critical_extensions = [];
  enabled_capabilities = [];
  scheduler = queue;
  flow = none;
  local_resolves = [];
  remote_resolves = [];
  maximum_seen_local_query_id = 0;
  maximum_seen_remote_query_id = 0;
}

abbrev ledger : FlowController
ledger = record {
  connection_send_window = 4096;
  connection_receive_window = 4096;
  maximum_concurrent_streams = 8;
  maximum_seen_stream_id = 0;
  streams = [];
}

abbrev talking : Session
talking = record fresh {
  phase = active;
  selected_version = some (version 1 0);
  session_id = identity;
  enabled_capabilities = tcp_connect_v1 ∷ [];
  flow = some ledger;
}

abbrev target : OpenTcpStream
target = record {
  stream_id = 1;
  destination = some (hostname "example.org");
  destination_port = 443;
  timeout_ms = 5000;
  policy_flags = 0;
  initial_receive_window = 1024;
}

abbrev calls : List Op
calls =
    opens_tcp target 0
    ∷ queues_data 1 nonce 1
    ∷ flushes (ok tt)
    ∷ receives (1 ∷ 8 ∷ []) 2
    ∷ narrows []
    ∷ []

abbrev agreed : NegotiatedParameters
agreed = record {
  selected_version = version 1 0;
  session_id = identity;
  maximum_frame_size = 65536;
  peer_connection_receive_window = 4096;
  local_connection_receive_window = 4096;
  maximum_concurrent_streams = 8;
  enabled_capabilities = tcp_connect_v1 ∷ [];
  idle_stream_timeout = 120000;
  next_phase = awaiting_authentication_result;
}

abbrev handshake : List Event
handshake = configures agreed ∷ asks marks_active ∷ []

handshake-talking : live encoded decoded fresh handshake ≡ talking
unfolding live ◌>>=◌ get ◌>>◌ fail_if lift Flow.new validate_capabilities modify
handshake-talking = refl

opens-queue : refusal encoded decoded (opens_tcp target 0) talking ≡ none
unfolding refusal ◌>>◌ check require_active_client require_capability ◌>>=◌ lift accounted_body_size
    validate_frame validate_open_tcp validate_stream_id validate_hostname validate_timeout
    validate_stream_window can_enqueue_control with_flow Flow.open_local with_scheduler
    enqueue_control
opens-queue = refl

run-Advances_example : Advances talking (run encoded decoded talking calls)
run-Advances_example = run-Advances encoded decoded talking calls

new-live-IsSound_example : IsSound (live encoded decoded fresh handshake)
unfolding new_client validate Scheduler.new
new-live-IsSound_example =
    new-live-IsSound encoded decoded default (version 1 0) fresh handshake (omega arith) (inl refl)

accept_frame_once_example :
    accept_frame pinged 5 (
      live encoded decoded
        (record talking { next_receive_sequence = 2 })
        (asks (opens_tcp target 0) ∷ []))
    ≢ (talking, ok (ping nonce))
unfolding accept_frame ◌>>=◌ get ◌>>◌ lift validate_frame bounded_range check_sequence fail_if
    modify check apply_active_inbound return
accept_frame_once_example =
    accept_frame_once encoded decoded pinged pinged 2 5 talking
      (record talking { next_receive_sequence = 2 }) talking (ping nonce) (ping nonce)
      (asks (opens_tcp target 0) ∷ []) refl (omega arith)

refusal_atomic_example : perform encoded decoded (grants_credit 1 100 3) talking ≡ talking
unfolding refusal ◌>>◌ check require_active_or_draining require_capability
refusal_atomic_example =
    refusal_atomic encoded decoded (grants_credit 1 100 3) talking
      (protocol_violation "capability was not negotiated and granted") refl refl

abbrev greeting : OutboundItem Body
greeting = record { body = ping nonce; accounted_bytes = 200 }

abbrev greeted : FairScheduler Body
greeted = record queue { control = greeting ∷ []; queued_bytes = 200 }

greeted-IsValid : IsValid greeted
unfolding Scheduler.new enqueue_control
greeted-IsValid =
    enqueue_control-IsValid greeting queue (new-IsValid 8388608 262144 256 queue (omega arith) refl)

abbrev greeter : Session
greeter = record talking { scheduler = greeted }

abbrev refuses_all : ℕ → Result ProtocolError (Unit {0})
refuses_all sequence = err closed

flush_all_drains_example :
    (flush_rounds encoded refuses_all 9 greeter ≡ some (flush_all encoded refuses_all greeter))
    × (((e : ProtocolError) × ((flush_all encoded refuses_all greeter).1 ≡ err e))
        ⊎ (frames (flush_all encoded refuses_all greeter).0.scheduler ≡ 0))
flush_all_drains_example =
    flush_all_drains encoded refuses_all greeter 9 greeted-IsValid (omega arith)
