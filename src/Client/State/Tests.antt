-- ===== src/Client/State/Tests.antt =====
-- The theorems of the connection states at concrete walks, and of the recovery at concrete errors.
use vpn_ne_vpn.Prelude.{true, ◌≡◌, refl, List, [], ◌∷◌, length, ◌≤◌}
use vpn_ne_vpn.Client.State.{
  ClientConnectionState, can_transition_to, requires_kill_switch, disconnected, preparing,
  applying_kill_switch, bootstrapping_tor, disconnecting, connected, blocked, fatal_error,
}
use vpn_ne_vpn.Client.State.Safety.{
  Walk, here, step, Visits, kill_switch_first, network_fails_closed, fatal_is_final, shuts_down,
}
use vpn_ne_vpn.Client.Error.{OnionError, tor, tor_unavailable, error, must_block, backoff}

start_up :
    Walk disconnected connected
      (disconnected ∷ preparing ∷ applying_kill_switch ∷ bootstrapping_tor ∷ [])
unfolding can_transition_to
start_up = step refl (step refl (step refl (step refl here)))

kill_switch_first_example :
    Visits applying_kill_switch
      (disconnected ∷ preparing ∷ applying_kill_switch ∷ bootstrapping_tor ∷ [])
kill_switch_first_example = kill_switch_first start_up refl refl

-- A state that requires the kill switch is reached with the switch never applied.
bypass : Walk disconnected disconnecting (disconnected ∷ preparing ∷ [])
unfolding can_transition_to
bypass = step refl (step refl here)

network_fails_closed_example :
    (can_transition_to connected blocked ≡ true)
    × (can_transition_to connected disconnecting ≡ true)
    × (can_transition_to connected fatal_error ≡ true)
    × (requires_kill_switch connected ≡ true)
network_fails_closed_example = network_fails_closed connected refl

fatal_is_final_example : disconnecting ≡ disconnecting
unfolding can_transition_to
fatal_is_final_example = fatal_is_final disconnecting refl

shuts_down_example :
    (via : List ClientConnectionState) × Walk connected disconnected via × (length via ≤ 2)
shuts_down_example = shuts_down connected

abbrev tor_down : OnionError
tor_down = record {
  domain = tor;
  code = tor_unavailable;
  severity = error;
  retry = backoff;
  safety = must_block;
  message = "tor is down";
}
