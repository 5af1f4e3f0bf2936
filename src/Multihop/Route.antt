-- ===== src/Multihop/Route.antt =====
-- crates/gateway-multihop/src/route.rs: the choice of an exit for an entry. Gateways and countries
-- are texts; `len` counts their bytes.
pub mod Choice
pub mod Tests
use vpn_ne_vpn.Prelude.{
  ℕ, ◌+◌, ◌*◌, min, Bool, true, false, not, ◌&&◌, ◌||◌, if◌then◌else◌, ltb, leb, ◌==◌, Result, ok,
  err, ok_or, and_then, is_ok, Option, some, none, List, [], ◌∷◌, any, String,
}
use vpn_ne_vpn.Prelude.Maps.{string_eq}
use vpn_ne_vpn.Prelude.Texts.{is_empty, all_bytes, is_ascii_uppercase, precedes, bytes}
use vpn_ne_vpn.Multihop.Error.{
  ErrorCode, invalid_configuration, policy_denied, protocol_incompatible,
}

pub data GatewayRole : Type 0 where
  entry exit : GatewayRole

pub record ProtocolVersion : Type 0 where
  pub major : ℕ
  pub minor : ℕ

pub data MaintenanceState : Type 0 where
  active draining maintenance : MaintenanceState

pub data LoadBucket : Type 0 where
  low medium high unknown saturated : LoadBucket

pub record GatewayDescriptor : Type 0 where
  pub gateway_id : String
  pub role : GatewayRole
  pub country_code : String
  pub provider_id : String
  pub autonomous_system : ℕ
  pub management_identity : String
  pub protocol_versions : List ProtocolVersion
  pub maintenance : MaintenanceState
  pub load : LoadBucket
  pub revoked : Bool

pub record RoutePolicy : Type 0 where
  pub exit_country : String
  pub required_version : ProtocolVersion
  pub maximum_load : LoadBucket

pub record RecentFailure : Type 0 where
  pub gateway_id : String
  pub consecutive_failures : ℕ

pub record EnhancedRoute : Type 0 where
  pub entry : GatewayDescriptor
  pub exit : GatewayDescriptor
  pub protocol_version : ProtocolVersion

-- The place of a bucket in the derived order.
abbrev pub rank : LoadBucket → ℕ
rank low = 0
rank medium = 1
rank high = 2
rank unknown = 3
rank saturated = 4

abbrev pub is_role : GatewayRole → GatewayRole → Bool
is_role entry entry = true
is_role exit exit = true
is_role _ _ = false

abbrev pub is_active : MaintenanceState → Bool
is_active active = true
is_active _ = false

abbrev pub is_version : ProtocolVersion → ProtocolVersion → Bool
is_version v w = v.major == w.major && v.minor == w.minor

unfoldable pub validate_gateway :
    GatewayDescriptor → GatewayRole → LoadBucket → Result ErrorCode (Unit {0})
validate_gateway gateway role maximum_load =
    if not (is_role gateway.role role)
      || is_empty gateway.gateway_id
      || is_empty gateway.provider_id
      || is_empty gateway.management_identity
      || gateway.autonomous_system == 0
      || gateway.revoked
      || not (is_active gateway.maintenance)
      || ltb (rank maximum_load) (rank gateway.load)
    then err policy_denied
    else ok tt

unfoldable pub supports : GatewayDescriptor → ProtocolVersion → Bool
supports gateway required = any (λ v. is_version v required) gateway.protocol_versions

-- `RoutePolicy::validate`
unfoldable pub validate : RoutePolicy → Result ErrorCode (Unit {0})
validate policy =
    if not (bytes policy.exit_country == 2)
      || not (all_bytes is_ascii_uppercase policy.exit_country)
      || policy.required_version.major == 0
      || leb (rank unknown) (rank policy.maximum_load)
    then err invalid_configuration
    else ok tt

-- The filters of `select_enhanced_route`.
unfoldable pub is_candidate : GatewayDescriptor → RoutePolicy → GatewayDescriptor → Bool
unfolding validate_gateway supports
is_candidate gateway policy candidate =
    is_ok (validate_gateway candidate exit policy.maximum_load)
    && string_eq.beq candidate.country_code policy.exit_country
    && supports candidate policy.required_version
    && not (string_eq.beq candidate.provider_id gateway.provider_id)
    && not (candidate.autonomous_system == gateway.autonomous_system)
    && not (string_eq.beq candidate.management_identity gateway.management_identity)

abbrev pub load_score : LoadBucket → ℕ
load_score low = 0
load_score medium = 100
load_score high = 300
load_score unknown = 10000
load_score saturated = 100000

abbrev pub failure_score : String → List RecentFailure → ℕ
failure_score id [] = 0
failure_score id (f ∷ fs) =
    if string_eq.beq f.gateway_id id
    then min f.consecutive_failures 8 * 1000
    else failure_score id fs

-- The sum stays far below the range at which it would saturate.
unfoldable pub candidate_score : GatewayDescriptor → List RecentFailure → ℕ
candidate_score candidate failures =
    load_score candidate.load + failure_score candidate.gateway_id failures

-- `compare_candidates` answers that the left one is greater.
unfoldable pub is_greater : List RecentFailure → GatewayDescriptor → GatewayDescriptor → Bool
unfolding candidate_score
is_greater failures left right =
    ltb (candidate_score right failures) (candidate_score left failures)
    || (candidate_score left failures == candidate_score right failures
        && precedes right.gateway_id left.gateway_id)

-- `min_by` on the exits that pass the filters: of equal ones the first.
unfoldable pub better :
    List RecentFailure → GatewayDescriptor → GatewayDescriptor → GatewayDescriptor
unfolding is_greater
better failures best next = if is_greater failures best next then next else best

unfoldable pub best_from :
    (GatewayDescriptor → Bool)
    → List RecentFailure
    → Option GatewayDescriptor
    → List GatewayDescriptor
    → Option GatewayDescriptor
unfolding better
best_from p failures best [] = best
best_from p failures none (x ∷ xs) = best_from p failures (if p x then some x else none) xs
best_from p failures (some best) (x ∷ xs) =
    best_from p failures (some (if p x then better failures best x else best)) xs

unfoldable pub select_enhanced_route :
    GatewayDescriptor
    → List GatewayDescriptor
    → RoutePolicy
    → List RecentFailure
    → Result ErrorCode EnhancedRoute
unfolding validate validate_gateway supports is_candidate best_from
select_enhanced_route gateway exits policy failures = and_then (validate policy) λ _.
    and_then (validate_gateway gateway entry policy.maximum_load) λ _.
      if not (supports gateway policy.required_version)
      then err protocol_incompatible
      else and_then
          (ok_or (best_from (is_candidate gateway policy) failures none exits) policy_denied)
          λ selected. ok (record {
            entry = gateway;
            exit = selected;
            protocol_version = policy.required_version;
          })
