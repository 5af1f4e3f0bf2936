-- ===== src/GatewayProtocol/Session/Handshake.antt =====
-- crates/gateway-protocol/src/session.rs: what the endpoints set when a handshake step is done.
use vpn_ne_vpn.Prelude.{
  ℕ, min, Bool, true, false, not, ◌||◌, ltb, ◌==◌, List, length, any, some, String,
}
use vpn_ne_vpn.Prelude.Keeps.{◌>>=◌, ◌>>◌, get, modify, lift, fail_if}
use vpn_ne_vpn.Prelude.Maps.{string_eq}
use vpn_ne_vpn.Prelude.Sets.{contains, collect}
use vpn_ne_vpn.GatewayProtocol.Error.{invalid_field, protocol_violation, invalid_session}
use vpn_ne_vpn.GatewayProtocol.Negotiation.{ProtocolVersion}
use vpn_ne_vpn.GatewayProtocol.Negotiation.Capabilities.{validate_capabilities}
use vpn_ne_vpn.GatewayProtocol.Flow
use vpn_ne_vpn.GatewayProtocol.Session.{
  SessionPhase, Call, active, awaiting_authentication, awaiting_authentication_result,
}

-- The idle timeout is in milliseconds.
pub record NegotiatedParameters : Type 0 where
  pub selected_version : ProtocolVersion
  pub session_id : List ℕ
  pub maximum_frame_size : ℕ
  pub peer_connection_receive_window : ℕ
  pub local_connection_receive_window : ℕ
  pub maximum_concurrent_streams : ℕ
  pub enabled_capabilities : List String
  pub idle_stream_timeout : ℕ
  pub next_phase : SessionPhase

unfoldable pub configure_negotiated : NegotiatedParameters → Call (Unit {0})
configure_negotiated p = do
  s ← get
  fail_if (p.selected_version.major == 0 || not (length p.session_id == 16)) invalid_session
  fail_if (p.maximum_frame_size == 0 || ltb s.limits.maximum_frame_size p.maximum_frame_size)
      (invalid_field "negotiated_frame_size")
  flow ← lift (
      Flow.new p.peer_connection_receive_window p.local_connection_receive_window
        (min p.maximum_concurrent_streams s.limits.maximum_concurrent_streams))
  lift (validate_capabilities p.enabled_capabilities)
  fail_if (p.idle_stream_timeout == 0) (invalid_field "idle_stream_timeout")
  modify (λ t. record t {
    outbound_version = p.selected_version;
    selected_version = some p.selected_version;
    session_id = p.session_id;
    maximum_frame_size = p.maximum_frame_size;
    enabled_capabilities = p.enabled_capabilities;
    limits = record (t.limits) { idle_stream_timeout = p.idle_stream_timeout };
    flow = some flow;
    phase = p.next_phase;
  })

abbrev pub awaits_result : SessionPhase → Bool
awaits_result awaiting_authentication = true
awaits_result awaiting_authentication_result = true
awaits_result _ = false

unfoldable pub mark_active : Call (Unit {0})
mark_active = do
  s ← get
  fail_if (not (awaits_result s.phase)) (protocol_violation "invalid active transition")
  modify (λ t. record t { phase = active })

unfoldable pub set_granted_capabilities : List String → Call (Unit {0})
set_granted_capabilities granted = do
  lift (validate_capabilities granted)
  s ← get
  fail_if
      (not (length (collect granted) == length granted)
        || any (λ c. not (contains s.enabled_capabilities c)) (collect granted))
      (protocol_violation "authentication granted an unnegotiated capability")
  modify (λ t. record t { enabled_capabilities = collect granted })
