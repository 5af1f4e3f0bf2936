-- ===== src/Multihop/Recovery.antt =====
-- crates/gateway-multihop/src/recovery.rs: what follows the failure of a route. Durations are in
-- nanoseconds.
pub mod Backoff
mod Tests
use vpn_ne_vpn.Prelude.{
  ℕ, ◌+◌, ◌-◌, ◌*◌, ◌^◌, min, Bool, true, false, ◌||◌, if◌then◌else◌, ltb, ◌==◌, Result, ok, err,
  List, Method, resume, ◌>>=◌, return, get, put,
}
use vpn_ne_vpn.Multihop.Error.{ErrorCode, policy_denied, protocol_incompatible}
use vpn_ne_vpn.Multihop.Route.{
  GatewayDescriptor, RoutePolicy, RecentFailure, EnhancedRoute, select_enhanced_route,
}

pub data FailureClass : Type 0 where
  transport certificate_revoked protocol_mismatch exit_draining policy : FailureClass

pub data RecoveryAction : Type 0 where
  reconnect_enhanced : EnhancedRoute → ℕ → RecoveryAction
  block : RecoveryAction

pub record FailClosedRecovery : Type 0 where
  pub initial_backoff : ℕ
  pub maximum_backoff : ℕ
  pub consecutive_failures : ℕ

abbrev pub default : FailClosedRecovery
default = record {
  initial_backoff = 250000000;
  maximum_backoff = 30000000000;
  consecutive_failures = 0;
}

abbrev pub on_success : FailClosedRecovery → FailClosedRecovery
on_success r = record r { consecutive_failures = 0 }

-- The longest `Duration`, beyond which `checked_mul` fails.
abbrev pub duration_max : ℕ
duration_max = 2 ^ 64 * 1000000000 - 1

unfoldable pub delay : FailClosedRecovery → ℕ
delay r =
    let product = r.initial_backoff * 2 ^ min (r.consecutive_failures - 1) 10 in
    min (if ltb duration_max product then r.maximum_backoff else product) r.maximum_backoff

abbrev pub is_policy : FailureClass → Bool
is_policy policy = true
is_policy _ = false

abbrev pub must_block : ErrorCode → Bool
must_block policy_denied = true
must_block protocol_incompatible = true
must_block _ = false

-- The answer to a selection, after the counter is raised.
abbrev pub answer :
    FailClosedRecovery → Result ErrorCode EnhancedRoute → Result ErrorCode RecoveryAction
answer r (ok route) = ok (reconnect_enhanced route (delay r))
answer r (err e) = if must_block e then ok block else err e

-- `u8::saturating_add` never saturates below the 16 at which the counter stops.
abbrev pub count_failure : FailClosedRecovery → FailClosedRecovery
count_failure r = record r { consecutive_failures = min (r.consecutive_failures + 1) 16 }

unfoldable pub recover :
    FailureClass
    → GatewayDescriptor
    → List GatewayDescriptor
    → RoutePolicy
    → List RecentFailure
    → Method FailClosedRecovery ErrorCode RecoveryAction
unfolding delay
recover class entry exits route_policy failures r =
    if r.initial_backoff == 0 || ltb r.maximum_backoff r.initial_backoff || is_policy class
    then (r, ok block)
    else (
      count_failure r,
      answer (count_failure r) (select_enhanced_route entry exits route_policy failures),
    )
