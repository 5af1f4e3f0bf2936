-- ===== src/GatewayProtocol/Flow/Tests.antt =====
-- Runs of the flow controller, and its theorems at concrete ledgers.
use vpn_ne_vpn.Prelude.{◌+◌, ◌≡◌, refl, false, err, List, [], ◌∷◌, arith, is_ok}
use vpn_ne_vpn.Prelude.Maps.{nat_eq}
use vpn_ne_vpn.GatewayProtocol.Error.{invalid_stream_id}
use vpn_ne_vpn.GatewayProtocol.Flow.{
  FlowController, StreamState, new, opens_local, receives_open, confirms, closes, sends, receives,
  updates, perform, run, debit_send, local_half_close, opened, Op, expire_idle,
}
use vpn_ne_vpn.GatewayProtocol.Flow.Invariant.{IsValid, new-run-IsValid}
use vpn_ne_vpn.GatewayProtocol.Flow.Credit.{over_run, run_credit}
use vpn_ne_vpn.GatewayProtocol.Flow.Ids.{reopen_refused, half_close_silences, here, there}

abbrev fresh : FlowController
fresh = record {
  connection_send_window = 1000;
  connection_receive_window = 500;
  maximum_concurrent_streams = 2;
  maximum_seen_stream_id = 0;
  streams = [];
}

abbrev dialogue : List Op
dialogue =
    opens_local 1 300 0
    ∷ confirms 1 400 1
    ∷ sends 1 100 2
    ∷ sends 1 350 3
    ∷ updates 0 7 4
    ∷ receives 1 50 5
    ∷ []

abbrev open_stream : StreamState
open_stream = record {
  phase = opened;
  send_window = 300;
  receive_window = 250;
  local_half_closed = false;
  remote_half_closed = false;
  last_activity = 5;
}

abbrev talking : FlowController
talking = record {
  connection_send_window = 907;
  connection_receive_window = 450;
  maximum_concurrent_streams = 2;
  maximum_seen_stream_id = 1;
  streams = (1, open_stream) ∷ [];
}

run-dialogue : run fresh dialogue ≡ talking
unfolding run
run-dialogue = refl

expire_idle-talking : (expire_idle talking 65 60 ≡ 1 ∷ []) × (expire_idle talking 64 60 ≡ [])
unfolding expire_idle
expire_idle-talking = (refl, refl)

new-run-IsValid_example : IsValid (run fresh dialogue)
unfolding new
new-run-IsValid_example = new-run-IsValid 1000 500 2 fresh dialogue refl

run_credit_example :
    ((run fresh dialogue).connection_send_window + 100 ≡ 1007)
    × ((run fresh dialogue).connection_receive_window + 50 ≡ 500)
unfolding over_run
run_credit_example = run_credit dialogue fresh

reopen_refused_example : perform (receives_open 1 10 9) talking ≡ (talking, err invalid_stream_id)
unfolding run
reopen_refused_example =
    reopen_refused 1 (opens_local 1 300 0) (receives_open 1 10 9) fresh
      (confirms 1 400 1 ∷ sends 1 100 2 ∷ sends 1 350 3 ∷ updates 0 7 4 ∷ receives 1 50 5 ∷ [])
      (here 300 0) (there 10 9) refl

talking-IsValid : IsValid talking
talking-IsValid = record {
  send_bounded = omega arith;
  receive_bounded = omega arith;
  count_bounded = omega arith;
  entries = omega arith;
  distinct = (refl, tt);
}

half_close_silences_example :
    is_ok
      (debit_send 1 10 9 (run (local_half_close 1 6 talking).0 (updates 1 50 7 ∷ closes 1 ∷ []))).1
    ≡ false
unfolding local_half_close
half_close_silences_example =
    half_close_silences 1 10 6 9 talking (updates 1 50 7 ∷ closes 1 ∷ []) talking-IsValid refl
