-- ===== src/Policy/Plan/Hops.antt =====
-- crates/policy-engine/src/lib.rs: what every plan respects.
use vpn_ne_vpn.Prelude.{
  ◌≡◌, ◌⊎◌, refl, subst, Bool, true, false, ok, some, List, [], ◌∷◌, any, all, String, arith,
  Bool-cases, Option-cases, Result-cases, inl, inr,
}
use vpn_ne_vpn.Prelude.Maps.{string_eq}
use vpn_ne_vpn.Policy.Plan.{
  GatewayRole, GatewayDescriptor, RouteConstraints, GatewayHop, GatewayPlan, roles_of, suits,
  contains, find, hop, select_hops, select_plan, is_role, country_allowed,
}

abbrev pub Listed : GatewayDescriptor → List GatewayDescriptor → Type 0
Listed g [] = ⊥
Listed g (x ∷ xs) = (g ≡ x) ⊎ Listed g xs

-- The hop is that of a gateway of the directory, which has the role and every required feature, and
-- for an exit the country asked for.
pub record IsHop (gateways : List GatewayDescriptor) (c : RouteConstraints) (role : GatewayRole)
    (h : GatewayHop) : Type 0 where
  pub gateway : GatewayDescriptor
  pub listed : Listed gateway gateways
  pub same : h ≡ hop role gateway
  pub has_role : any (λ r. is_role r role) gateway.roles ≡ true
  pub has_features : all (λ f. contains gateway.capabilities f) c.required_features ≡ true
  pub in_country : country_allowed c.exit_country role gateway ≡ true

-- One hop for each role, in the order of the roles, each by a gateway not taken before.
abbrev pub AreHops :
    List GatewayDescriptor
    → RouteConstraints
    → List String
    → List GatewayRole
    → List GatewayHop
    → Type 0
AreHops gs c taken [] [] = Unit {0}
AreHops gs c taken [] (h ∷ hs) = ⊥
AreHops gs c taken (r ∷ rs) [] = ⊥
AreHops gs c taken (r ∷ rs) (h ∷ hs) =
    IsHop gs c r h
    × (contains taken h.gateway_id ≡ false)
    × AreHops gs c (h.gateway_id ∷ taken) rs hs

find-Listed :
    (p : GatewayDescriptor → Bool) (gs : List GatewayDescriptor) (g : GatewayDescriptor)
    → find p gs ≡ some g
    → Listed g gs × (p g ≡ true)
find-Listed p [] g h = absurd (ground arith)
find-Listed p (x ∷ xs) g h = elim (Bool-cases (p x)) [
  | inl e ↦ ground arith
  | inr e ↦ let (l, q) = find-Listed p xs g (ground arith) in (inr l, q)
]

find-suits :
    (gs : List GatewayDescriptor) (c : RouteConstraints) (r : GatewayRole) (taken : List String)
    (g : GatewayDescriptor)
    → find (suits c r taken) gs ≡ some g
    → (any (λ q. is_role q r) g.roles ≡ true)
      × (contains taken g.gateway_id ≡ false)
      × (all (λ f. contains g.capabilities f) c.required_features ≡ true)
      × (country_allowed c.exit_country r g ≡ true)
unfolding suits
find-suits gs c r taken g e = ground (arith, find-Listed (suits c r taken) gs g e)

find-IsHop :
    (gs : List GatewayDescriptor) (c : RouteConstraints) (r : GatewayRole) (taken : List String)
    (g : GatewayDescriptor)
    → find (suits c r taken) gs ≡ some g
    → IsHop gs c r (hop r g)
find-IsHop gs c r taken g e =
    let (has, new, features, country) = find-suits gs c r taken g e in
    record {
      gateway = g;
      listed = (find-Listed (suits c r taken) gs g e).0;
      same = refl;
      has_role = has;
      has_features = features;
      in_country = country;
    }

select_hops-AreHops :
    (gs : List GatewayDescriptor) (c : RouteConstraints) (taken : List String)
    (roles : List GatewayRole) (hops : List GatewayHop)
    → select_hops gs c taken roles ≡ ok hops
    → AreHops gs c taken roles hops
unfolding select_hops
select_hops-AreHops gs c taken [] [] h = tt
select_hops-AreHops gs c taken [] (x ∷ xs) h = absurd (ground arith)
select_hops-AreHops gs c taken (r ∷ rs) hops h = elim (Option-cases (find (suits c r taken) gs)) [
  | inl e ↦ absurd (ground arith)
  | inr (g, e) ↦ elim (Result-cases (select_hops gs c (g.gateway_id ∷ taken) rs)) [
    | inl (x, k) ↦ absurd (ground arith)
    | inr (hs, k) ↦
        let same : hop r g ∷ hs ≡ hops = ground arith in
        subst (AreHops gs c taken (r ∷ rs)) same (
          (
            find-IsHop gs c r taken g e,
            (find-suits gs c r taken g e).1,
            select_hops-AreHops gs c (g.gateway_id ∷ taken) rs hs k,
          ))
  ]
]

-- A plan has one hop for each role of its mode, in their order; each is a gateway of the directory with
-- that role and every required feature, the exit in the country asked for, and no gateway serves twice.
pub select_plan_sound :
    (gs : List GatewayDescriptor) (c : RouteConstraints) (plan : GatewayPlan)
    → select_plan gs c ≡ ok plan
    → (plan.mode ≡ c.mode) × AreHops gs c [] (roles_of c.mode) plan.hops
unfolding select_plan
select_plan_sound gs c plan h = elim (Result-cases (select_hops gs c [] (roles_of c.mode))) [
  | inl (e, k) ↦ absurd (ground arith)
  | inr (hs, k) ↦ (
    ground arith,
    subst (AreHops gs c [] (roles_of c.mode)) (ground arith)
        (select_hops-AreHops gs c [] (roles_of c.mode) hs k),
  )
]
