-- ===== src/Multihop/Route/Choice.antt =====
-- crates/gateway-multihop/src/route.rs: the exit that is chosen.
use vpn_ne_vpn.Prelude.{
  ◌≤◌, ◌<◌, ◌≡◌, ◌≢◌, ◌⊎◌, sym, subst, Bool, true, false, if◌then◌else◌, ok, is_ok, some, none,
  List, [], ◌∷◌, arith, Bool-cases, Option-cases, inl, inr,
}
use vpn_ne_vpn.Prelude.Maps.{string_eq}
use vpn_ne_vpn.Multihop.Route.{
  GatewayDescriptor, RoutePolicy, RecentFailure, EnhancedRoute, validate, validate_gateway,
  supports, is_candidate, candidate_score, is_greater, better, best_from, select_enhanced_route,
  entry, exit, active, rank, unknown,
}

abbrev pub Listed : GatewayDescriptor → List GatewayDescriptor → Type 0
Listed g [] = ⊥
Listed g (x ∷ xs) = (g ≡ x) ⊎ Listed g xs

better-le :
    (fs : List RecentFailure) (a b : GatewayDescriptor)
    → (candidate_score (better fs a b) fs ≤ candidate_score a fs)
      × (candidate_score (better fs a b) fs ≤ candidate_score b fs)
      × ((better fs a b ≡ a) ⊎ (better fs a b ≡ b))
unfolding better is_greater
better-le fs a b = ground arith

module _ (p : GatewayDescriptor → Bool) (fs : List RecentFailure) where
  -- The search goes on with what it has, or returns one that it meets.
  from_some :
      (xs : List GatewayDescriptor) (c b : GatewayDescriptor)
      → best_from p fs (some c) xs ≡ some b
      → ((b ≡ c) ⊎ (Listed b xs × (p b ≡ true)))
        × (candidate_score b fs ≤ candidate_score c fs)
        × ((x : GatewayDescriptor)
            → Listed x xs
            → p x ≡ true
            → candidate_score b fs ≤ candidate_score x fs)
  unfolding best_from
  from_some [] c b h = ground arith
  from_some (y ∷ ys) c b h = elim (Bool-cases (p y)) [
    | inl e ↦
        let (met, low, least) = from_some ys (better fs c y) b (ground arith) in
        (
          ground (arith, better-le fs c y),
          ground (arith, better-le fs c y),
          λ x l q. ground (arith, better-le fs c y, least x),
        )
    | inr e ↦
        let (met, low, least) = from_some ys c b (ground arith) in
        (ground arith, low, λ x l q. ground (arith, least x))
  ]

  from_none :
      (xs : List GatewayDescriptor) (b : GatewayDescriptor)
      → best_from p fs none xs ≡ some b
      → Listed b xs
        × (p b ≡ true)
        × ((x : GatewayDescriptor)
            → Listed x xs
            → p x ≡ true
            → candidate_score b fs ≤ candidate_score x fs)
  unfolding best_from
  from_none [] b h = absurd (ground arith)
  from_none (y ∷ ys) b h = elim (Bool-cases (p y)) [
    | inl e ↦
        let (met, low, least) = from_some ys y b (ground arith) in
        (ground arith, ground arith, λ x l q. ground (arith, least x))
    | inr e ↦
        let (met, good, least) = from_none ys b (ground arith) in
        (inr met, good, λ x l q. ground (arith, least x))
  ]

  some_stays :
      (xs : List GatewayDescriptor) (c : GatewayDescriptor) → best_from p fs (some c) xs ≢ none
  unfolding best_from
  some_stays [] c = λ h. ground arith
  some_stays (y ∷ ys) c = some_stays ys (if p y then better fs c y else c)

  none_left :
      (xs : List GatewayDescriptor)
      → best_from p fs none xs ≡ none
      → (x : GatewayDescriptor) → Listed x xs
      → p x ≡ false
  unfolding best_from
  none_left [] h x l = absurd l
  none_left (y ∷ ys) h x l = elim (Bool-cases (p y)) [
    | inl e ↦ absurd (ground (arith, some_stays ys y))
    | inr e ↦ elim l [ inl q ↦ ground arith | inr k ↦ none_left ys (ground arith) x k ]
  ]

-- What an exit must have beside the entry: the role, the country and the version asked for, nothing
-- that rules it out, a load within the limit, and another provider, system and management.
pub record IsEligible (gateway : GatewayDescriptor) (policy : RoutePolicy) (x : GatewayDescriptor)
    : Type 0 where
  pub role : x.role ≡ exit
  pub live : x.maintenance ≡ active
  pub trusted : x.revoked ≡ false
  pub country : x.country_code ≡ policy.exit_country
  pub version : supports x policy.required_version ≡ true
  pub unloaded : rank x.load ≤ rank policy.maximum_load
  pub provider : x.provider_id ≢ gateway.provider_id
  pub system : x.autonomous_system ≢ gateway.autonomous_system
  pub management : x.management_identity ≢ gateway.management_identity

candidate-IsEligible :
    (g : GatewayDescriptor) (policy : RoutePolicy) (x : GatewayDescriptor)
    → is_candidate g policy x ≡ true
    → IsEligible g policy x
unfolding is_candidate validate_gateway
candidate-IsEligible g policy x h = ground (
  arith,
  string_eq.beq_iff x.country_code policy.exit_country,
  string_eq.beq_iff x.provider_id g.provider_id,
  string_eq.beq_iff x.management_identity g.management_identity,
)

-- The exit of a selected route is one of those offered and differs from the entry in provider,
-- autonomous system and management; it serves the country and the version that the policy asks for,
-- is active, not revoked and within the load limit, which is below `unknown`.
pub select_enhanced_route_sound :
    (g : GatewayDescriptor) (exits : List GatewayDescriptor) (policy : RoutePolicy)
    (fs : List RecentFailure) (r : EnhancedRoute)
    → select_enhanced_route g exits policy fs ≡ ok r
    → (r.entry ≡ g)
      × Listed r.exit exits
      × IsEligible g policy r.exit
      × (rank policy.maximum_load < rank unknown)
unfolding select_enhanced_route validate
select_enhanced_route_sound g exits policy fs r h =
    elim (Option-cases (best_from (is_candidate g policy) fs none exits)) [
      | inl e ↦ absurd (ground arith)
      | inr (b, e) ↦
          let (met, good, least) = from_none (is_candidate g policy) fs exits b e in
          let chosen : r.exit ≡ b = ground arith in
          (
            ground arith,
            subst (λ z. Listed z exits) (sym chosen) met,
            subst (λ z. IsEligible g policy z) (sym chosen) (candidate-IsEligible g policy b good),
            ground arith,
          )
    ]

-- No gateway on offer that passes the filters has a lower score, of load and recent failures, than the
-- exit of the selected route.
pub select_enhanced_route_least :
    (g : GatewayDescriptor) (exits : List GatewayDescriptor) (policy : RoutePolicy)
    (fs : List RecentFailure) (r : EnhancedRoute) (x : GatewayDescriptor)
    → select_enhanced_route g exits policy fs ≡ ok r
    → Listed x exits
    → is_candidate g policy x ≡ true
    → candidate_score r.exit fs ≤ candidate_score x fs
unfolding select_enhanced_route
select_enhanced_route_least g exits policy fs r x h l q =
    elim (Option-cases (best_from (is_candidate g policy) fs none exits)) [
      | inl e ↦ absurd (ground arith)
      | inr (b, e) ↦
          let (met, good, least) = from_none (is_candidate g policy) fs exits b e in
          let chosen : r.exit ≡ b = ground arith in ground (arith, least x l q)
    ]

-- Where the policy and the entry are in order, an exit is refused only if no gateway on offer passes
-- the filters: the selection never gives up on a candidate.
pub select_enhanced_route_complete :
    (g : GatewayDescriptor) (exits : List GatewayDescriptor) (policy : RoutePolicy)
    (fs : List RecentFailure) (x : GatewayDescriptor)
    → validate policy ≡ ok tt
    → validate_gateway g entry policy.maximum_load ≡ ok tt
    → supports g policy.required_version ≡ true
    → Listed x exits
    → is_candidate g policy x ≡ true
    → is_ok (select_enhanced_route g exits policy fs) ≡ true
unfolding select_enhanced_route
select_enhanced_route_complete g exits policy fs x a b c l q =
    elim (Option-cases (best_from (is_candidate g policy) fs none exits)) [
      | inl e ↦ absurd (ground (arith, none_left (is_candidate g policy) fs exits e x l))
      | inr (y, e) ↦ ground arith
    ]
