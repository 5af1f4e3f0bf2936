-- ===== src/GatewayProtocol/Session.antt =====
-- crates/gateway-protocol/src/session.rs: the state of a session, over the ledger and the scheduler. The
-- transport is left out: what it delivers and what it takes are arguments and results.
pub mod Handshake
pub mod Outbound
pub mod Inbound
pub mod Flush
pub mod Advance
pub mod Steps
pub mod Calls
pub mod Traffic
pub mod History
pub mod Atomic
mod Tests
use vpn_ne_vpn.Prelude.{
  ℕ, Bool, true, false, not, ◌&&◌, ◌||◌, if◌then◌else◌, ltb, ◌==◌, Result, ok, err, and_then,
  Option, some, none, List, [], ◌∷◌, String, Method,
}
use vpn_ne_vpn.Prelude.Keeps.{◌>>=◌, ◌>>◌, get, lift, fail_if, check}
use vpn_ne_vpn.Prelude.Maps.{string_eq}
use vpn_ne_vpn.Prelude.Sets.{contains}
use vpn_ne_vpn.GatewayProtocol.Error.{
  ProtocolError, invalid_field, protocol_violation, closed, invalid_session,
}
use vpn_ne_vpn.GatewayProtocol.Limits.{ProtocolLimits, validate}
use vpn_ne_vpn.GatewayProtocol.Negotiation.{ProtocolVersion}
use vpn_ne_vpn.GatewayProtocol.Messages.{Body}
use vpn_ne_vpn.GatewayProtocol.Flow.{FlowController}
use vpn_ne_vpn.GatewayProtocol.Scheduler
use vpn_ne_vpn.GatewayProtocol.Scheduler.{FairScheduler}

pub data PeerRole : Type 0 where
  client server : PeerRole

pub data SessionPhase : Type 0 where
  awaiting_server_hello awaiting_client_hello awaiting_authentication : SessionPhase
  awaiting_authentication_result active draining closed_phase : SessionPhase

pub record Session : Type 0 where
  pub local_role : PeerRole
  pub phase : SessionPhase
  pub limits : ProtocolLimits
  pub maximum_frame_size : ℕ
  pub outbound_version : ProtocolVersion
  pub selected_version : Option ProtocolVersion
  pub session_id : List ℕ
  pub next_send_sequence : ℕ
  pub next_receive_sequence : ℕ
  pub enabled_critical_extensions : List ℕ
  pub enabled_capabilities : List String
  pub scheduler : FairScheduler Body
  pub flow : Option FlowController
  pub local_resolves : List ℕ
  pub remote_resolves : List ℕ
  pub maximum_seen_local_query_id : ℕ
  pub maximum_seen_remote_query_id : ℕ

abbrev pub Call : Type 0 → Type 0
Call A = Method Session ProtocolError A

abbrev pub is_client : PeerRole → Bool
is_client client = true
is_client server = false

abbrev pub is_active : SessionPhase → Bool
is_active active = true
is_active _ = false

abbrev pub is_draining : SessionPhase → Bool
is_draining draining = true
is_draining _ = false

abbrev pub is_closed : SessionPhase → Bool
is_closed closed_phase = true
is_closed _ = false

unfoldable pub new_session :
    PeerRole → SessionPhase → ProtocolLimits → ProtocolVersion → Result ProtocolError Session
new_session role phase limits initial_version = and_then (validate limits) λ _.
    if initial_version.major == 0
    then err (invalid_field "initial_version")
    else and_then
        (Scheduler.new limits.maximum_queued_bytes limits.maximum_queued_bytes_per_stream
          limits.maximum_control_frames)
        λ scheduler. ok (record {
          local_role = role;
          phase = phase;
          limits = limits;
          maximum_frame_size = limits.maximum_frame_size;
          outbound_version = initial_version;
          selected_version = none;
          session_id = [];
          next_send_sequence = 1;
          next_receive_sequence = 1;
          enabled_critical_extensions = [];
          enabled_capabilities = [];
          scheduler = scheduler;
          flow = none;
          local_resolves = [];
          remote_resolves = [];
          maximum_seen_local_query_id = 0;
          maximum_seen_remote_query_id = 0;
        })

unfoldable pub new_client : ProtocolLimits → ProtocolVersion → Result ProtocolError Session
unfolding new_session
new_client limits version = new_session client awaiting_server_hello limits version

unfoldable pub new_server : ProtocolLimits → ProtocolVersion → Result ProtocolError Session
unfolding new_session
new_server limits version = new_session server awaiting_client_hello limits version

abbrev pub tcp_connect_v1 : String
tcp_connect_v1 = "tcp-connect-v1"

abbrev pub flow_control_v1 : String
flow_control_v1 = "flow-control-v1"

abbrev pub resolve_domain_v1 : String
resolve_domain_v1 = "resolve-domain-v1"

abbrev pub session_rotation_v1 : String
session_rotation_v1 = "session-rotation-v1"

unfoldable pub require_active_client : Session → Result ProtocolError (Unit {0})
require_active_client s =
    if not (is_active s.phase) || not (is_client s.local_role) then err closed else ok tt

unfoldable pub require_active_server : Session → Result ProtocolError (Unit {0})
require_active_server s =
    if not (is_active s.phase) || is_client s.local_role then err closed else ok tt

unfoldable pub require_active_or_draining : Session → Result ProtocolError (Unit {0})
require_active_or_draining s =
    if not (is_active s.phase || is_draining s.phase) then err closed else ok tt

unfoldable pub require_capability : String → Session → Result ProtocolError (Unit {0})
require_capability capability s =
    if not (contains s.enabled_capabilities capability)
    then err (protocol_violation "capability was not negotiated and granted")
    else ok tt

-- A call of the ledger that `flow_mut` lends, with what it leaves written back.
abbrev pub on_flow :
    (Method FlowController ProtocolError (Unit {0})) → Option FlowController → Call (Unit {0})
on_flow call none s = (s, err invalid_session)
on_flow call (some f) s = (record s { flow = some (call f).0 }, (call f).1)

unfoldable pub with_flow : (Method FlowController ProtocolError (Unit {0})) → Call (Unit {0})
with_flow call s = on_flow call s.flow s

-- A call of the scheduler.
unfoldable pub with_scheduler :
    (Method (FairScheduler Body) ProtocolError (Unit {0})) → Call (Unit {0})
with_scheduler call s = (record s { scheduler = (call s.scheduler).0 }, (call s.scheduler).1)
