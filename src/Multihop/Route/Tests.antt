-- ===== src/Multihop/Route/Tests.antt =====
-- The choice of an exit on concrete gateways.
use vpn_ne_vpn.Prelude.{ℕ, ◌≤◌, ◌<◌, ◌≡◌, refl, false, ok, List, [], ◌∷◌, String, inl, inr}
use vpn_ne_vpn.Multihop.Route.{
  GatewayDescriptor, RoutePolicy, RecentFailure, EnhancedRoute, GatewayRole, select_enhanced_route,
  candidate_score, is_candidate, validate, validate_gateway, supports, entry, exit, active, low,
  high, rank, unknown, best_from, better, is_greater,
}
use vpn_ne_vpn.Multihop.Route.Choice.{
  Listed, IsEligible, select_enhanced_route_sound, select_enhanced_route_least,
}

abbrev pub gateway : String → GatewayRole → String → ℕ → String → GatewayDescriptor
gateway id role provider system management = record {
  gateway_id = id;
  role = role;
  country_code = "DE";
  provider_id = provider;
  autonomous_system = system;
  management_identity = management;
  protocol_versions = record { major = 1; minor = 0 } ∷ [];
  maintenance = active;
  load = low;
  revoked = false;
}

abbrev pub front : GatewayDescriptor
front = gateway "entry" entry "provider-a" 64501 "ops-a"

abbrev pub exit_b : GatewayDescriptor
exit_b = gateway "exit-b" exit "provider-b" 64502 "ops-b"

abbrev pub exit_c : GatewayDescriptor
exit_c = gateway "exit-c" exit "provider-c" 64503 "ops-c"

abbrev pub german : RoutePolicy
german = record {
  exit_country = "DE";
  required_version = record { major = 1; minor = 0 };
  maximum_load = high;
}

abbrev pub failed_b : List RecentFailure
failed_b = record { gateway_id = "exit-b"; consecutive_failures = 2 } ∷ []

abbrev offers : List GatewayDescriptor
offers = gateway "twin" exit "provider-a" 64504 "ops-d" ∷ exit_b ∷ exit_c ∷ []

abbrev pub route_c : EnhancedRoute
route_c = record {
  entry = front;
  exit = exit_c;
  protocol_version = record { major = 1; minor = 0 };
}

pub selects-c : select_enhanced_route front (exit_b ∷ exit_c ∷ []) german failed_b ≡ ok route_c
unfolding select_enhanced_route validate validate_gateway supports is_candidate best_from better
    is_greater candidate_score
selects-c = refl

selects-offer : select_enhanced_route front offers german failed_b ≡ ok route_c
unfolding select_enhanced_route validate validate_gateway supports is_candidate best_from better
    is_greater candidate_score
selects-offer = refl

select_enhanced_route_sound_example :
    (front ≡ front)
    × Listed exit_c offers
    × IsEligible front german exit_c
    × (rank german.maximum_load < rank unknown)
select_enhanced_route_sound_example =
    select_enhanced_route_sound front offers german failed_b route_c selects-offer

select_enhanced_route_least_example :
    candidate_score exit_c failed_b ≤ candidate_score exit_b failed_b
unfolding validate_gateway supports is_candidate
select_enhanced_route_least_example =
    select_enhanced_route_least front offers german failed_b route_c exit_b selects-offer
      (inr (inl refl)) refl
