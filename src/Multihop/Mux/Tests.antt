-- ===== src/Multihop/Mux/Tests.antt =====
-- A queue of two sessions and a control frame.
use vpn_ne_vpn.Prelude.{some, ◌≡◌, refl, ok, List, [], ◌∷◌, arith}
use vpn_ne_vpn.GatewayProtocol.Scheduler as Scheduler
use vpn_ne_vpn.GatewayProtocol.Scheduler.Invariant.{IsValid}
use vpn_ne_vpn.Multihop.Mux.{
  FairMuxQueue, open_command, data_command, control_command, new, try_push, push_control,
  push_session, pop_next, pop_active, pop_session, settle, Op, pushes, pops, cancels, perform, run,
}
use vpn_ne_vpn.Multihop.Mux.Abstraction.{item, as_scheduler}
use vpn_ne_vpn.Multihop.Mux.Refinement.{
  offer, pushed, answer, pop_next-as_scheduler, try_push-as_scheduler, as_scheduler-run-IsValid,
}

abbrev fresh : FairMuxQueue
fresh = record {
  control = [];
  sessions = [];
  active = [];
  per_session_bytes = [];
  queued_bytes = 0;
  maximum_bytes = 2000;
  maximum_per_session_bytes = 300;
  maximum_control_frames = 16;
  control_burst = 0;
}

abbrev traffic : List Op
traffic =
    pushes (data_command 1 (9 ∷ 9 ∷ []))
    ∷ pushes (open_command 3 (7 ∷ []))
    ∷ pushes (data_command 1 (8 ∷ []))
    ∷ pushes (control_command (5 ∷ []))
    ∷ pops
    ∷ pops
    ∷ cancels 3
    ∷ []

-- Once a frame of it was taken, the session 1 has room again.
room_again : (try_push (data_command 1 []) (run fresh traffic)).1 ≡ ok tt
unfolding run perform try_push push_control push_session pop_next pop_active pop_session settle
room_again = refl

abbrev busy : FairMuxQueue
busy = record fresh {
  sessions = (1, data_command 1 (9 ∷ []) ∷ []) ∷ (3, data_command 3 [] ∷ []) ∷ [];
  active = 1 ∷ 3 ∷ [];
  per_session_bytes = (1, 129) ∷ (3, 128) ∷ [];
  queued_bytes = 257;
}

pop_next-as_scheduler_example : Scheduler.pop_next (as_scheduler busy) ≡ answer (pop_next busy)
pop_next-as_scheduler_example = pop_next-as_scheduler busy

try_push-as_scheduler_example :
    pushed (try_push (data_command 1 (9 ∷ [])) busy)
    ≡ offer (some 1) (item (data_command 1 (9 ∷ []))) (as_scheduler busy)
try_push-as_scheduler_example = try_push-as_scheduler (data_command 1 (9 ∷ [])) busy (omega arith)

as_scheduler-run-IsValid_example : IsValid (as_scheduler (run fresh traffic))
unfolding new
as_scheduler-run-IsValid_example =
    as_scheduler-run-IsValid 2000 300 16 fresh traffic (omega arith) refl
