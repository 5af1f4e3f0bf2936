-- ===== src/Multihop/Recovery/Backoff.antt =====
-- crates/gateway-multihop/src/recovery.rs: a recovery reconnects by a route that the policy allows,
-- after a bounded wait, or blocks.
use vpn_ne_vpn.Prelude.{
  ℕ, zero, suc, ◌+◌, ◌-◌, ◌*◌, ◌^◌, min, ◌≤◌, ◌≡◌, ◌≢◌, refl, ok, List, [], ◌∷◌, if◌then◌else◌,
  arith, Result-cases, inl, inr,
}
use vpn_ne_vpn.Multihop.Route.{
  GatewayDescriptor, RoutePolicy, RecentFailure, EnhancedRoute, select_enhanced_route,
}
use vpn_ne_vpn.Multihop.Recovery.{
  FailureClass, FailClosedRecovery, reconnect_enhanced, policy, recover, delay, duration_max,
  count_failure, on_success, is_policy,
}

power-pos : (n : ℕ) → 1 ≤ 2 ^ n
power-pos zero = omega arith
power-pos (suc n) = ground (arith, power-pos n)

scaled-le : (a b : ℕ) → 1 ≤ b → a ≤ a * b
scaled-le a zero h = absurd (omega arith)
scaled-le a (suc b) h = omega arith

-- A wait is the initial backoff, doubled for each failure before this one, ten times at most, and cut
-- at the maximum.
delay-doubles :
    (r : FailClosedRecovery)
    → r.maximum_backoff ≤ duration_max
    → delay r ≡ min (r.initial_backoff * 2 ^ min (r.consecutive_failures - 1) 10) r.maximum_backoff
unfolding delay
delay-doubles r h = ground arith

-- A recovery that reconnects does so after a failure that is not one of policy, by a route that the
-- selection allows, after a wait between the two backoffs.
pub recover_bounded :
    (c : FailureClass) (g : GatewayDescriptor) (xs : List GatewayDescriptor) (p : RoutePolicy)
    (fs : List RecentFailure) (r : FailClosedRecovery) (route : EnhancedRoute) (after : ℕ)
    → (recover c g xs p fs r).1 ≡ ok (reconnect_enhanced route after)
    → (c ≢ policy)
      × (select_enhanced_route g xs p fs ≡ ok route)
      × (r.initial_backoff ≤ after)
      × (after ≤ r.maximum_backoff)
unfolding recover delay
recover_bounded c g xs p fs r route after h =
    elim (Result-cases (select_enhanced_route g xs p fs)) [
      | inl (e, k) ↦ absurd (ground arith)
      | inr (x, k) ↦ (
        λ q. ground arith,
        ground arith,
        ground (
          arith,
          power-pos (min (min (r.consecutive_failures + 1) 16 - 1) 10),
          scaled-le r.initial_backoff (2 ^ min (min (r.consecutive_failures + 1) 16 - 1) 10),
        ),
        ground arith,
      )
    ]

-- A call of `recover`: the failure's class, and the gateways, policy and recent failures it is given.
pub record Attempt : Type 0 where
  pub class : FailureClass
  pub entry : GatewayDescriptor
  pub exits : List GatewayDescriptor
  pub route_policy : RoutePolicy
  pub failures : List RecentFailure

-- The state after some calls, the last of them first.
abbrev pub recovers : List Attempt → FailClosedRecovery → FailClosedRecovery
recovers [] r = r
recovers (a ∷ history) r =
    (recover a.class a.entry a.exits a.route_policy a.failures (recovers history r)).0

-- How many of the calls are for a failure that is not one of policy.
abbrev pub failed : List Attempt → ℕ
failed [] = 0
failed (a ∷ history) = if is_policy a.class then failed history else failed history + 1

kept :
    (history : List Attempt) (r : FailClosedRecovery)
    → ((recovers history r).initial_backoff ≡ r.initial_backoff)
      × ((recovers history r).maximum_backoff ≡ r.maximum_backoff)
unfolding recover
kept [] r = (refl, refl)
kept (a ∷ history) r = ground (arith, kept history r)

counted :
    (history : List Attempt) (r : FailClosedRecovery)
    → r.initial_backoff ≢ 0
    → r.initial_backoff ≤ r.maximum_backoff
    → r.consecutive_failures ≡ 0
    → (recovers history r).consecutive_failures ≡ min (failed history) 16
unfolding recover
counted [] r b d e = ground arith
counted (a ∷ history) r b d e = ground (arith, kept history r, counted history r b d e)

-- Whatever calls of `recover` were made since a success, with any classes, gateways, policies and recent
-- failures, a reconnection waits for the initial backoff, doubled once for each of those calls that was
-- for a failure not of policy (a route was found or not), ten times at most, and cut at the maximum. The
-- maximum is a duration that the type can hold.
pub backoff_doubles :
    (history : List Attempt) (c : FailureClass) (g : GatewayDescriptor)
    (xs : List GatewayDescriptor) (p : RoutePolicy) (fs : List RecentFailure)
    (r : FailClosedRecovery) (route : EnhancedRoute) (after : ℕ)
    → r.maximum_backoff ≤ duration_max
    → (recover c g xs p fs (recovers history (on_success r))).1
      ≡ ok (reconnect_enhanced route after)
    → after ≡ min (r.initial_backoff * 2 ^ min (failed history) 10) r.maximum_backoff
unfolding recover
backoff_doubles history c g xs p fs r route after u h =
    let s = recovers history (on_success r) in
    let kept_s = kept history (on_success r) in
    elim (Result-cases (select_enhanced_route g xs p fs)) [
      | inl (e, k) ↦ absurd (ground arith)
      | inr (x, k) ↦
          let facts : (s.initial_backoff ≢ 0)
              × (s.initial_backoff ≤ s.maximum_backoff)
              × (after ≡ delay (count_failure s)) =
            (λ q. ground arith, ground arith, ground arith) in
          let count = counted history (on_success r) (ground arith) (ground arith) refl in
          let wait = delay-doubles (count_failure s) (ground arith) in
          let exponent : min (min (s.consecutive_failures + 1) 16 - 1) 10
              ≡ min (failed history) 10 =
            omega arith in
          ground arith
    ]
