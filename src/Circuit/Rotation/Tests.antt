-- ===== src/Circuit/Rotation/Tests.antt =====
-- A gate over a history of requests.
use vpn_ne_vpn.Prelude.{ℕ, ◌*◌, ◌≤◌, ◌≡◌, refl, List, [], ◌∷◌, arith}
use vpn_ne_vpn.Circuit.Rotation.{
  RotationSchedulerConfig, RotationGate, new, validate, second, try_acquire, pop_expired,
}
use vpn_ne_vpn.Circuit.Rotation.Limits.{run, request, start, recent, IsSpaced, gate_respects_limits}

abbrev config : RotationSchedulerConfig
config = record { minimum_spacing = 5 * second; fleet_window = 60 * second; maximum_in_window = 2 }

abbrev gate : RotationGate
gate = record { config = config; accepted = [] }

-- The second comes too soon, the fourth is the third in its window, the last finds room again.
abbrev requests : List ℕ
requests = 1 * second ∷ 2 * second ∷ 9 * second ∷ 30 * second ∷ 62 * second ∷ []

log-requests : (run (start gate) requests).log ≡ 62 * second ∷ 9 * second ∷ 1 * second ∷ []
unfolding run request try_acquire pop_expired
log-requests = refl

gate_respects_limits_example :
    IsSpaced (5 * second) (run (start gate) requests).log
    × (recent (60 * second) (63 * second) (run (start gate) requests).log ≤ 2)
unfolding new validate run request
gate_respects_limits_example =
    gate_respects_limits config gate requests (63 * second) refl
      (omega arith, (omega arith, (omega arith, (omega arith, (omega arith, tt))))) (omega arith)
