-- ===== src/Tokens/Codec/Inverse.antt =====
-- crates/auth-tokens/src/codec.rs: the message of claims that were read from a message is that message.
use vpn_ne_vpn.Prelude.{
  ℕ, zero, suc, ◌≡◌, sym, ap, ◌∙◌, Result, ok, ok_or, Option, some, none, List, [], ◌∷◌, arith,
}
use vpn_ne_vpn.Prelude.Checks.{then_passed_in, ok_or-some, then_passed, ok-injective}
use vpn_ne_vpn.Prelude.Ints.{ℤ, pos, negsuc}
use vpn_ne_vpn.Tokens.Error.{TokenError, invalid_encoding, unsupported_version}
use vpn_ne_vpn.Tokens.Policy.{
  PlanClass, GatewayRole, RegionSet, DeviceSlotClass, BandwidthClass, basic, plus, premium, entry,
  relay, exit, europe, americas, asia_pacific, global, single, personal, family, standard, fast,
  priority, plan_number, role_number, region_number, device_number, bandwidth_number,
}
use vpn_ne_vpn.Tokens.Claims.{CapabilityClaims, token_id_length, pop_public_key_length}
use vpn_ne_vpn.Tokens.Wire.{CapabilityClaimsV1}
use vpn_ne_vpn.Tokens.Codec.{
  plan_from_wire, role_from_wire, region_from_wire, device_from_wire, bandwidth_from_wire,
  roles_to_wire, roles_from_wire, claims_to_wire, claims_from_wire, pop_from_wire, to_u16, to_array,
}

module _ {A : Type 0} (number : A → ℕ) where
  -- A value that was read is sent as the number it was read from.
  same_number :
      (x y : A) → ◌≡◌ {A = Result TokenError A} (ok x) (ok y) → pos (number y) ≡ pos (number x)
  same_number x y h = ap (λ z. pos (number z)) (sym (ok-injective x y h))

plan_to-from : (z : ℤ) (x : PlanClass) → plan_from_wire z ≡ ok x → pos (plan_number x) ≡ z
plan_to-from (negsuc n) x h = absurd (cc h)
plan_to-from (pos zero) x h = absurd (cc h)
plan_to-from (pos (suc zero)) x h = same_number plan_number basic x h
plan_to-from (pos (suc (suc zero))) x h = same_number plan_number plus x h
plan_to-from (pos (suc (suc (suc zero)))) x h = same_number plan_number premium x h
plan_to-from (pos (suc (suc (suc (suc n))))) x h = absurd (cc h)

role_to-from : (z : ℤ) (x : GatewayRole) → role_from_wire z ≡ ok x → pos (role_number x) ≡ z
role_to-from (negsuc n) x h = absurd (cc h)
role_to-from (pos zero) x h = absurd (cc h)
role_to-from (pos (suc zero)) x h = same_number role_number entry x h
role_to-from (pos (suc (suc zero))) x h = same_number role_number relay x h
role_to-from (pos (suc (suc (suc zero)))) x h = same_number role_number exit x h
role_to-from (pos (suc (suc (suc (suc n))))) x h = absurd (cc h)

region_to-from : (z : ℤ) (x : RegionSet) → region_from_wire z ≡ ok x → pos (region_number x) ≡ z
region_to-from (negsuc n) x h = absurd (cc h)
region_to-from (pos zero) x h = absurd (cc h)
region_to-from (pos (suc zero)) x h = same_number region_number europe x h
region_to-from (pos (suc (suc zero))) x h = same_number region_number americas x h
region_to-from (pos (suc (suc (suc zero)))) x h = same_number region_number asia_pacific x h
region_to-from (pos (suc (suc (suc (suc zero))))) x h = same_number region_number global x h
region_to-from (pos (suc (suc (suc (suc (suc n)))))) x h = absurd (cc h)

device_to-from :
    (z : ℤ) (x : DeviceSlotClass) → device_from_wire z ≡ ok x → pos (device_number x) ≡ z
device_to-from (negsuc n) x h = absurd (cc h)
device_to-from (pos zero) x h = absurd (cc h)
device_to-from (pos (suc zero)) x h = same_number device_number single x h
device_to-from (pos (suc (suc zero))) x h = same_number device_number personal x h
device_to-from (pos (suc (suc (suc zero)))) x h = same_number device_number family x h
device_to-from (pos (suc (suc (suc (suc n))))) x h = absurd (cc h)

bandwidth_to-from :
    (z : ℤ) (x : BandwidthClass) → bandwidth_from_wire z ≡ ok x → pos (bandwidth_number x) ≡ z
bandwidth_to-from (negsuc n) x h = absurd (cc h)
bandwidth_to-from (pos zero) x h = absurd (cc h)
bandwidth_to-from (pos (suc zero)) x h = same_number bandwidth_number standard x h
bandwidth_to-from (pos (suc (suc zero))) x h = same_number bandwidth_number fast x h
bandwidth_to-from (pos (suc (suc (suc zero)))) x h = same_number bandwidth_number priority x h
bandwidth_to-from (pos (suc (suc (suc (suc n))))) x h = absurd (cc h)

roles_to-from :
    (zs : List ℤ) (xs : List GatewayRole) → roles_from_wire zs ≡ ok xs → roles_to_wire xs ≡ zs
roles_to-from [] xs h = ap roles_to_wire (sym (ok-injective [] xs h))
roles_to-from (z ∷ zs) xs h =
    let (x, (p, q)) = then_passed (role_from_wire z) _ h in
    let (ys, (r, built)) = then_passed (roles_from_wire zs) _ q in
    ap roles_to_wire (sym (ok-injective (x ∷ ys) xs built))
    ∙ cc (role_to-from z x p, roles_to-from zs ys r)

to_u16-value : (n m : ℕ) (e : TokenError) → to_u16 n e ≡ ok m → m ≡ n
to_u16-value n m e h = ground (arith, h)

to_array-value : (size : ℕ) (xs ys : List ℕ) → to_array size xs ≡ ok ys → ys ≡ xs
to_array-value size xs ys h = ground (arith, h)

pop_from_wire-value : (key k : Option (List ℕ)) → pop_from_wire key ≡ ok k → k ≡ key
pop_from_wire-value none k h = sym (ok-injective none k h)
pop_from_wire-value (some key) k h =
    let (ys, (p, built)) = then_passed (to_array pop_public_key_length key) _ h in
    sym (ok-injective (some ys) k built) ∙ ap some (to_array-value pop_public_key_length key ys p)

-- Every field of the message is kept by the claims.
pub claims_to-from :
    (w : CapabilityClaimsV1) (c : CapabilityClaims)
    → claims_from_wire w ≡ ok c
    → claims_to_wire c ≡ w
unfolding claims_from_wire claims_to_wire
claims_to-from w c h =
    then_passed_in (to_u16 w.token_version unsupported_version) _ h λ version p1 h1.
      then_passed_in (to_array token_id_length w.token_id) _ h1 λ id p2 h2.
        then_passed_in (roles_from_wire w.allowed_gateway_roles) _ h2 λ roles p3 h3.
          then_passed_in (ok_or w.connection_limits invalid_encoding) _ h3 λ limits p4 h4.
            then_passed_in (to_u16 limits.max_active_sessions invalid_encoding) _ h4
              λ sessions p5 h5.
                then_passed_in (to_u16 limits.max_concurrent_streams invalid_encoding) _ h5
                  λ streams p6 h6.
                    then_passed_in (to_u16 limits.new_connections_per_minute invalid_encoding) _ h6
                      λ per_minute p7 h7.
                        then_passed_in (pop_from_wire w.proof_of_possession_public_key) _ h7
                          λ key p8 h8.
                            then_passed_in (plan_from_wire w.plan_class) _ h8 λ plan p9 h9.
                              then_passed_in (region_from_wire w.region_set) _ h9 λ region p10 h10.
                                then_passed_in (device_from_wire w.device_slot_class) _ h10
                                  λ device p11 h11.
                                    then_passed_in (bandwidth_from_wire w.bandwidth_class) _ h11
                                      λ bandwidth p12 built.
                                        ap claims_to_wire (sym (ok-injective _ c built))
                                        ∙ cc (
                                          to_u16-value w.token_version version unsupported_version
                                              p1,
                                          to_array-value token_id_length w.token_id id p2,
                                          roles_to-from w.allowed_gateway_roles roles p3,
                                          ok_or-some w.connection_limits invalid_encoding p4,
                                          to_u16-value limits.max_active_sessions sessions
                                              invalid_encoding p5,
                                          to_u16-value limits.max_concurrent_streams streams
                                              invalid_encoding p6,
                                          to_u16-value limits.new_connections_per_minute per_minute
                                              invalid_encoding p7,
                                          pop_from_wire-value w.proof_of_possession_public_key key
                                              p8,
                                          plan_to-from w.plan_class plan p9,
                                          region_to-from w.region_set region p10,
                                          device_to-from w.device_slot_class device p11,
                                          bandwidth_to-from w.bandwidth_class bandwidth p12,
                                        )
