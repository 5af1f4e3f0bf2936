-- ===== src/Tokens/Policy/Profile.antt =====
-- crates/auth-tokens/src/policy.rs: what the checks of a policy and of a window leave.
use vpn_ne_vpn.Prelude.{
  ℕ, ◌+◌, ◌*◌, ◌/◌, ◌≡◌, refl, sym, ap, subst, ◌∙◌, true, ok, List, [], ◌∷◌, arith, Bool-cases, inl,
  inr,
}
use vpn_ne_vpn.Prelude.Bytes.{same_bytes}
use vpn_ne_vpn.Prelude.Ints.{ℤ, pos, negsuc}
use vpn_ne_vpn.Prelude.Members.{member}
use vpn_ne_vpn.Tokens.Policy.{
  GatewayRole, DeviceSlotClass, BandwidthClass, CapabilityPolicy, ConnectionLimits, entry, relay,
  exit, single, personal, family, standard, fast, priority, role_number, device_number,
  bandwidth_number, role_numbers, same_policy, same_limits, profile, permitted_roles,
  validate_canonical, validate_window, validate_for, canonical, role_allowed, token_ttl_seconds,
  token_bucket_seconds,
}

role_number-injective : (x y : GatewayRole) → role_number x ≡ role_number y → x ≡ y
role_number-injective entry entry h = refl
role_number-injective relay relay h = refl
role_number-injective exit exit h = refl
role_number-injective entry relay h = absurd (omega arith)
role_number-injective entry exit h = absurd (omega arith)
role_number-injective relay entry h = absurd (omega arith)
role_number-injective relay exit h = absurd (omega arith)
role_number-injective exit entry h = absurd (omega arith)
role_number-injective exit relay h = absurd (omega arith)

device_number-injective : (x y : DeviceSlotClass) → device_number x ≡ device_number y → x ≡ y
device_number-injective single single h = refl
device_number-injective personal personal h = refl
device_number-injective family family h = refl
device_number-injective single personal h = absurd (omega arith)
device_number-injective single family h = absurd (omega arith)
device_number-injective personal single h = absurd (omega arith)
device_number-injective personal family h = absurd (omega arith)
device_number-injective family single h = absurd (omega arith)
device_number-injective family personal h = absurd (omega arith)

bandwidth_number-injective :
    (x y : BandwidthClass) → bandwidth_number x ≡ bandwidth_number y → x ≡ y
bandwidth_number-injective standard standard h = refl
bandwidth_number-injective fast fast h = refl
bandwidth_number-injective priority priority h = refl
bandwidth_number-injective standard fast h = absurd (omega arith)
bandwidth_number-injective standard priority h = absurd (omega arith)
bandwidth_number-injective fast standard h = absurd (omega arith)
bandwidth_number-injective fast priority h = absurd (omega arith)
bandwidth_number-injective priority standard h = absurd (omega arith)
bandwidth_number-injective priority fast h = absurd (omega arith)

one_role :
    (roles : List GatewayRole) (role : GatewayRole)
    → same_bytes (role_numbers roles) (role_number role ∷ []) ≡ true
    → roles ≡ role ∷ []
one_role [] role h = absurd (cc h)
one_role (r ∷ []) role h = ap (λ x. x ∷ []) (role_number-injective r role (ground arith))
one_role (r ∷ s ∷ rs) role h = absurd (ground arith)

same_limits_sound : (a b : ConnectionLimits) → same_limits a b ≡ true → a ≡ b
same_limits_sound a b h = ground arith

same_policy-profile :
    (p : CapabilityPolicy) (role : GatewayRole)
    → same_policy p (profile p.plan_class p.region_set role) ≡ true
    → p ≡ profile p.plan_class p.region_set role
same_policy-profile p role h = ground (
  arith,
  one_role p.allowed_gateway_roles role,
  device_number-injective p.device_slot_class
      (profile p.plan_class p.region_set role).device_slot_class,
  bandwidth_number-injective p.bandwidth_class
      (profile p.plan_class p.region_set role).bandwidth_class,
)

validate_for-profile :
    (p : CapabilityPolicy) (first : GatewayRole) (rest : List GatewayRole)
    → validate_for p (first ∷ rest) ≡ ok tt
    → (p ≡ profile p.plan_class p.region_set first)
      × (member (role_number first) (role_numbers (permitted_roles p.plan_class)) ≡ true)
unfolding canonical
validate_for-profile p first rest h =
    elim (Bool-cases (member (role_number first) (role_numbers (permitted_roles p.plan_class)))) [
      | inr refused ↦ absurd (ground (arith, refused, h))
      | inl permits ↦ (same_policy-profile p first (ground (arith, permits, h)), permits)
    ]

allowed-profile :
    (p : CapabilityPolicy) (roles : List GatewayRole) (role : GatewayRole)
    → p.allowed_gateway_roles ≡ roles
    → validate_for p roles ≡ ok tt
    → member (role_number role) (role_numbers roles) ≡ true
    → (p ≡ profile p.plan_class p.region_set role)
      × (member (role_number role) (role_numbers (permitted_roles p.plan_class)) ≡ true)
allowed-profile p [] role e v r = absurd (cc v)
allowed-profile p (first ∷ rest) role e v r =
    let (is_profile, permits) = validate_for-profile p first rest v in
    let alone : first ∷ rest ≡ first ∷ [] = sym e ∙ ap (λ q. q.allowed_gateway_roles) is_profile in
    let same : first ≡ role = role_number-injective first role (ground (arith, alone, r)) in
    subst
      (λ x.
        (p ≡ profile p.plan_class p.region_set x)
        × (member (role_number x) (role_numbers (permitted_roles p.plan_class)) ≡ true))
      same (is_profile, permits)

-- A canonical policy that allows a role is the profile of its plan for that role, and its plan
-- permits the role.
pub validate_canonical-profile :
    (p : CapabilityPolicy) (role : GatewayRole)
    → validate_canonical p ≡ ok tt
    → role_allowed p role ≡ true
    → (p ≡ profile p.plan_class p.region_set role)
      × (member (role_number role) (role_numbers (permitted_roles p.plan_class)) ≡ true)
unfolding validate_canonical
validate_canonical-profile p role v r = allowed-profile p p.allowed_gateway_roles role refl v r

-- A window starts at a bucket's boundary and lasts a token's life.
pub validate_window-bucket :
    (not_before expires_at : ℤ)
    → validate_window not_before expires_at ≡ ok tt
    → (n : ℕ) × ((not_before ≡ pos (n * token_bucket_seconds))
        × (expires_at ≡ pos (n * token_bucket_seconds + token_ttl_seconds)))
unfolding validate_window
validate_window-bucket (pos m) (pos n) h = (m / token_bucket_seconds, ground arith)
validate_window-bucket (pos m) (negsuc n) h = absurd (ground arith)
validate_window-bucket (negsuc m) (pos n) h = absurd (ground arith)
validate_window-bucket (negsuc m) (negsuc n) h = absurd (ground arith)
