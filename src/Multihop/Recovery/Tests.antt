-- ===== src/Multihop/Recovery/Tests.antt =====
-- Recoveries in a row on concrete gateways.
use vpn_ne_vpn.Prelude.{◌*◌, ◌^◌, min, ◌≤◌, ◌≡◌, ◌≢◌, refl, ok, List, [], ◌∷◌, arith}
use vpn_ne_vpn.Multihop.Route.{
  select_enhanced_route, validate, validate_gateway, supports, is_candidate, best_from, better,
  is_greater, candidate_score,
}
use vpn_ne_vpn.Multihop.Route.Tests.{front, exit_b, exit_c, german, failed_b, route_c}
use vpn_ne_vpn.Multihop.Recovery.{
  FailClosedRecovery, transport, exit_draining, policy, recover, delay, reconnect_enhanced,
}
use vpn_ne_vpn.Multihop.Recovery.Backoff.{Attempt, recover_bounded, backoff_doubles}

abbrev failing : FailClosedRecovery
failing = record {
  initial_backoff = 250000000;
  maximum_backoff = 30000000000;
  consecutive_failures = 4;
}

recover-failing :
    (recover transport front (exit_b ∷ exit_c ∷ []) german failed_b failing).1
    ≡ ok (reconnect_enhanced route_c 4000000000)
unfolding recover delay select_enhanced_route validate validate_gateway supports is_candidate
    best_from better is_greater candidate_score
recover-failing = refl

recover_bounded_example :
    (transport ≢ policy)
    × (select_enhanced_route front (exit_b ∷ exit_c ∷ []) german failed_b ≡ ok route_c)
    × (250000000 ≤ 4000000000)
    × (4000000000 ≤ 30000000000)
recover_bounded_example =
    recover_bounded transport front (exit_b ∷ exit_c ∷ []) german failed_b failing route_c
      4000000000 recover-failing

abbrev calls : List Attempt
calls =
    record {
      class = policy;
      entry = front;
      exits = exit_b ∷ [];
      route_policy = german;
      failures = [];
    }
    ∷ record {
      class = exit_draining;
      entry = front;
      exits = [];
      route_policy = german;
      failures = failed_b;
    }
    ∷ record {
      class = transport;
      entry = front;
      exits = exit_b ∷ exit_c ∷ [];
      route_policy = german;
      failures = failed_b;
    }
    ∷ []

-- A connection that failed, one without a route, one refused by policy: the next wait is doubled twice.
backoff_doubles_example : 1000000000 ≡ min (250000000 * 2 ^ min 2 10) 30000000000
unfolding recover delay select_enhanced_route validate validate_gateway supports is_candidate
    best_from better is_greater candidate_score
backoff_doubles_example =
    backoff_doubles calls transport front (exit_b ∷ exit_c ∷ []) german failed_b failing route_c
      1000000000 (omega arith) refl
