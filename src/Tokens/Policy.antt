-- ===== src/Tokens/Policy.antt =====
-- crates/auth-tokens/src/policy.rs: the allowlisted policies of tokens. An enum is compared by the
-- number that its representation has.
pub mod Profile
use vpn_ne_vpn.Prelude.{
  ℕ, ◌+◌, ◌*◌, ◌%◌, and_then, Bool, true, false, not, ◌&&◌, ◌||◌, if◌then◌else◌, ◌==◌, Result, ok,
  err, ok_or, Option, some, none, List, [], ◌∷◌,
}
use vpn_ne_vpn.Prelude.Bytes.{same_bytes}
use vpn_ne_vpn.Prelude.Ints.{ℤ, pos, negsuc, is_negative, checked_sub}
use vpn_ne_vpn.Prelude.Members.{member}
use vpn_ne_vpn.Tokens.Error.{
  TokenError, non_canonical_policy, role_not_allowed, invalid_time_window,
}

pub data PlanClass : Type 0 where
  basic plus premium : PlanClass

pub data GatewayRole : Type 0 where
  entry relay exit : GatewayRole

pub data RegionSet : Type 0 where
  europe americas asia_pacific global : RegionSet

pub data DeviceSlotClass : Type 0 where
  single personal family : DeviceSlotClass

pub data BandwidthClass : Type 0 where
  standard fast priority : BandwidthClass

abbrev pub plan_number : PlanClass → ℕ
plan_number basic = 1
plan_number plus = 2
plan_number premium = 3

abbrev pub role_number : GatewayRole → ℕ
role_number entry = 1
role_number relay = 2
role_number exit = 3

abbrev pub region_number : RegionSet → ℕ
region_number europe = 1
region_number americas = 2
region_number asia_pacific = 3
region_number global = 4

abbrev pub device_number : DeviceSlotClass → ℕ
device_number single = 1
device_number personal = 2
device_number family = 3

abbrev pub bandwidth_number : BandwidthClass → ℕ
bandwidth_number standard = 1
bandwidth_number fast = 2
bandwidth_number priority = 3

abbrev pub allows : RegionSet → RegionSet → Bool
allows global gateway_region = true
allows set gateway_region = region_number set == region_number gateway_region

abbrev pub slot_limit : DeviceSlotClass → ℕ
slot_limit single = 1
slot_limit personal = 3
slot_limit family = 6

pub record ConnectionLimits : Type 0 where
  pub max_active_sessions : ℕ
  pub max_concurrent_streams : ℕ
  pub new_connections_per_minute : ℕ

pub record CapabilityPolicy : Type 0 where
  pub plan_class : PlanClass
  pub allowed_gateway_roles : List GatewayRole
  pub region_set : RegionSet
  pub device_slot_class : DeviceSlotClass
  pub bandwidth_class : BandwidthClass
  pub connection_limits : ConnectionLimits

abbrev pub role_numbers : List GatewayRole → List ℕ
role_numbers [] = []
role_numbers (role ∷ roles) = role_number role ∷ role_numbers roles

-- `#[derive(PartialEq)]`
abbrev pub same_limits : ConnectionLimits → ConnectionLimits → Bool
same_limits a b =
    a.max_active_sessions == b.max_active_sessions
    && a.max_concurrent_streams == b.max_concurrent_streams
    && a.new_connections_per_minute == b.new_connections_per_minute

abbrev pub same_policy : CapabilityPolicy → CapabilityPolicy → Bool
same_policy a b =
    plan_number a.plan_class == plan_number b.plan_class
    && same_bytes (role_numbers a.allowed_gateway_roles) (role_numbers b.allowed_gateway_roles)
    && region_number a.region_set == region_number b.region_set
    && device_number a.device_slot_class == device_number b.device_slot_class
    && bandwidth_number a.bandwidth_class == bandwidth_number b.bandwidth_class
    && same_limits a.connection_limits b.connection_limits

abbrev pub permitted_roles : PlanClass → List GatewayRole
permitted_roles basic = exit ∷ []
permitted_roles plus = entry ∷ exit ∷ []
permitted_roles premium = entry ∷ relay ∷ exit ∷ []

abbrev pub device_class : PlanClass → DeviceSlotClass
device_class basic = single
device_class plus = personal
device_class premium = family

abbrev pub bandwidth_of : PlanClass → BandwidthClass
bandwidth_of basic = standard
bandwidth_of plus = fast
bandwidth_of premium = priority

abbrev pub limits_of : PlanClass → ConnectionLimits
limits_of basic = record {
  max_active_sessions = 2;
  max_concurrent_streams = 64;
  new_connections_per_minute = 120;
}
limits_of plus = record {
  max_active_sessions = 4;
  max_concurrent_streams = 128;
  new_connections_per_minute = 240;
}
limits_of premium = record {
  max_active_sessions = 6;
  max_concurrent_streams = 256;
  new_connections_per_minute = 480;
}

-- The profile of a plan for a role.
abbrev pub profile : PlanClass → RegionSet → GatewayRole → CapabilityPolicy
profile plan region role = record {
  plan_class = plan;
  allowed_gateway_roles = role ∷ [];
  region_set = region;
  device_slot_class = device_class plan;
  bandwidth_class = bandwidth_of plan;
  connection_limits = limits_of plan;
}

unfoldable pub canonical : PlanClass → RegionSet → GatewayRole → Result TokenError CapabilityPolicy
canonical plan_class region_set gateway_role =
    if not (member (role_number gateway_role) (role_numbers (permitted_roles plan_class)))
    then err role_not_allowed
    else ok (profile plan_class region_set gateway_role)

abbrev pub expect :
    CapabilityPolicy → Result TokenError CapabilityPolicy → Result TokenError (Unit {0})
expect policy (err e) = err non_canonical_policy
expect policy (ok expected) =
    if same_policy policy expected then ok tt else err non_canonical_policy

abbrev pub validate_for : CapabilityPolicy → List GatewayRole → Result TokenError (Unit {0})
unfolding canonical
validate_for policy [] = err non_canonical_policy
validate_for policy (role ∷ roles) =
    expect policy (canonical policy.plan_class policy.region_set role)

unfoldable pub validate_canonical : CapabilityPolicy → Result TokenError (Unit {0})
unfolding canonical
validate_canonical policy = validate_for policy policy.allowed_gateway_roles

-- `binary_search`, on the ordered list of roles that `validate_canonical` lets through.
abbrev pub role_allowed : CapabilityPolicy → GatewayRole → Bool
role_allowed policy role = member (role_number role) (role_numbers policy.allowed_gateway_roles)

abbrev pub token_bucket_seconds : ℕ
token_bucket_seconds = 5 * 60

abbrev pub token_ttl_seconds : ℕ
token_ttl_seconds = 15 * 60

abbrev pub off_bucket : ℤ → Bool
off_bucket (pos n) = not (n % token_bucket_seconds == 0)
off_bucket (negsuc n) = not ((n + 1) % token_bucket_seconds == 0)

abbrev pub is_ttl : ℤ → Bool
is_ttl (pos n) = n == token_ttl_seconds
is_ttl (negsuc n) = false

unfoldable pub validate_window : ℤ → ℤ → Result TokenError (Unit {0})
validate_window not_before expires_at =
    and_then (ok_or (checked_sub expires_at not_before) invalid_time_window) λ duration.
      if is_negative not_before || off_bucket not_before || not (is_ttl duration)
      then err invalid_time_window
      else ok tt
