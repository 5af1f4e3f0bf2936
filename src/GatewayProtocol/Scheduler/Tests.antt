-- ===== src/GatewayProtocol/Scheduler/Tests.antt =====
-- Runs of the scheduler, and its theorems at concrete schedulers. A body is a number here.
use vpn_ne_vpn.Prelude.{ℕ, ◌≡◌, refl, some, List, [], ◌∷◌, arith}
use vpn_ne_vpn.Prelude.Maps.{nat_eq}
use vpn_ne_vpn.GatewayProtocol.Scheduler.{OutboundItem, FairScheduler, new, Op, queues_stream, run}
use vpn_ne_vpn.GatewayProtocol.Scheduler.Invariant.{IsValid}
use vpn_ne_vpn.GatewayProtocol.Scheduler.Runs.{new-run-IsBalanced}
use vpn_ne_vpn.GatewayProtocol.Scheduler.Fairness.{
  served, Soon, control_cannot_starve, streams_take_turns,
}

abbrev frame : ℕ → ℕ → OutboundItem ℕ
frame body n = record { body = body; accounted_bytes = n }

abbrev fresh : FairScheduler ℕ
fresh = record {
  control = [];
  streams = [];
  per_stream_bytes = [];
  active = [];
  queued_bytes = 0;
  maximum_queued_bytes = 100;
  maximum_queued_bytes_per_stream = 50;
  maximum_control_frames = 4;
  control_burst = 0;
}

abbrev traffic : List (Op ℕ)
traffic =
    queues_stream 1 (frame 10 20)
    ∷ queues_stream 1 (frame 11 20)
    ∷ queues_stream 3 (frame 30 20)
    ∷ queues_stream 1 (frame 12 20)
    ∷ []

-- The fourth frame is over the stream's limit.
abbrev busy : FairScheduler ℕ
busy = record {
  control = [];
  streams = (1, frame 10 20 ∷ frame 11 20 ∷ []) ∷ (3, frame 30 20 ∷ []) ∷ [];
  per_stream_bytes = (1, 40) ∷ (3, 20) ∷ [];
  active = 1 ∷ 3 ∷ [];
  queued_bytes = 60;
  maximum_queued_bytes = 100;
  maximum_queued_bytes_per_stream = 50;
  maximum_control_frames = 4;
  control_burst = 0;
}

run-traffic : run fresh traffic ≡ busy
unfolding run
run-traffic = refl

busy-IsValid : IsValid busy
unfolding new run
busy-IsValid = new-run-IsBalanced 100 50 4 fresh traffic (omega arith) refl

new-run-IsBalanced_example : IsValid (run fresh traffic)
unfolding new
new-run-IsBalanced_example = new-run-IsBalanced 100 50 4 fresh traffic (omega arith) refl

abbrev flooded : FairScheduler ℕ
flooded = record busy {
  control = frame 90 1 ∷ frame 91 1 ∷ frame 92 1 ∷ [];
  queued_bytes = 63;
  control_burst = 6;
}

control_cannot_starve_example : Soon 2 (frame 10 20) flooded
control_cannot_starve_example =
    control_cannot_starve 2 1 (3 ∷ []) (frame 10 20) (frame 11 20 ∷ []) flooded refl refl
      (omega arith)

streams_take_turns_example : served 2 busy ≡ some (frame 10 20) ∷ some (frame 30 20) ∷ []
streams_take_turns_example = streams_take_turns (1 ∷ 3 ∷ []) [] busy busy-IsValid refl refl
