-- ===== src/Client/State/Safety.antt =====
-- crates/common-types/src/state.rs: what every walk through the states respects.
use vpn_ne_vpn.Prelude.{
  Bool, true, false, ◌≡◌, ◌⊎◌, refl, arith, List, [], ◌∷◌, inl, inr, length, ◌≤◌,
}
use vpn_ne_vpn.Client.State.{
  ClientConnectionState, can_transition_to, requires_kill_switch, disconnected,
  applying_kill_switch, bootstrapping_tor, loading_directory, selecting_gateway, authenticating,
  connected, rotating, reconnecting, degraded, disconnecting, blocked, fatal_error,
}

-- The states in which the client talks to the network.
abbrev pub uses_network : ClientConnectionState → Bool
uses_network bootstrapping_tor = true
uses_network loading_directory = true
uses_network selecting_gateway = true
uses_network authenticating = true
uses_network connected = true
uses_network rotating = true
uses_network reconnecting = true
uses_network degraded = true
uses_network _ = false

-- A walk of permitted transitions; the last index is the list of the states that it leaves.
pub data Walk
    : ClientConnectionState → ClientConnectionState → List ClientConnectionState → Type 0 where
  here : {s : ClientConnectionState} → Walk s s []
  step :
      {s t u : ClientConnectionState} {via : List ClientConnectionState}
      → can_transition_to s t ≡ true
      → Walk t u via
      → Walk s u (s ∷ via)

abbrev pub Visits : ClientConnectionState → List ClientConnectionState → Type 0
Visits s [] = ⊥
Visits s (t ∷ ts) = (t ≡ s) ⊎ Visits s ts

-- From outside the network, a transition stays outside, or starts at the kill switch.
leaves_by_kill_switch :
    (s t : ClientConnectionState)
    → can_transition_to s t ≡ true
    → uses_network s ≡ false
    → (uses_network t ≡ false) ⊎ (s ≡ applying_kill_switch)
unfolding can_transition_to
leaves_by_kill_switch s t h n = ground arith

-- No walk gets from a state that does not use the network to one that does without leaving the state in
-- which the kill switch is applied.
pub kill_switch_first :
    {s t : ClientConnectionState} {via : List ClientConnectionState}
    → Walk s t via
    → uses_network s ≡ false
    → uses_network t ≡ true
    → Visits applying_kill_switch via
kill_switch_first here n u = absurd (ground arith)
kill_switch_first (step {s = s} {t = t} h w) n u = elim (leaves_by_kill_switch s t h n) [
  | inl out ↦ inr (kill_switch_first w out u)
  | inr k ↦ inl k
]

-- From every state that uses the network the client can fail closed, shut down and give up at once, and
-- every such state requires the kill switch.
pub network_fails_closed :
    (s : ClientConnectionState)
    → uses_network s ≡ true
    → (can_transition_to s blocked ≡ true)
      × (can_transition_to s disconnecting ≡ true)
      × (can_transition_to s fatal_error ≡ true)
      × (requires_kill_switch s ≡ true)
unfolding can_transition_to requires_kill_switch
network_fails_closed s h = ground arith

-- The client can be shut down from every state: a walk of at most two transitions leads to
-- `disconnected`.
pub shuts_down :
    (s : ClientConnectionState)
    → (via : List ClientConnectionState) × Walk s disconnected via × (length via ≤ 2)
unfolding can_transition_to
shuts_down disconnected = ([], here, omega arith)
shuts_down disconnecting = (disconnecting ∷ [], step refl here, omega arith)
shuts_down s = (s ∷ disconnecting ∷ [], step refl (step refl here), omega arith)

-- A fatal error is final but for a shutdown: the only transition out of it is to `disconnecting`.
pub fatal_is_final :
    (t : ClientConnectionState) → can_transition_to fatal_error t ≡ true → t ≡ disconnecting
unfolding can_transition_to
fatal_is_final t h = ground arith
