-- ===== src/Policy/Plan/Tests.antt =====
-- A plan over a small directory.
use vpn_ne_vpn.Prelude.{◌≡◌, refl, ok, err, some, List, [], ◌∷◌, String}
use vpn_ne_vpn.Policy.Plan.{
  GatewayRole, GatewayDescriptor, RouteConstraints, GatewayPlan, entry, exit, enhanced, hop, suits,
  select_hops, select_plan, no_gateway,
}
use vpn_ne_vpn.Policy.Plan.Hops.{AreHops, select_plan_sound}

abbrev gateway : String → String → List GatewayRole → GatewayDescriptor
gateway id country roles = record {
  gateway_id = id;
  country = country;
  roles = roles;
  endpoint = "onion";
  tls_spki_sha256 = [];
  protocols = (1, 0) ∷ [];
  capabilities = "tcp-connect-v1" ∷ [];
}

abbrev both : GatewayDescriptor
both = gateway "both" "DE" (entry ∷ exit ∷ [])

abbrev far : GatewayDescriptor
far = gateway "far" "SE" (exit ∷ [])

abbrev swedish : RouteConstraints
swedish = record {
  mode = enhanced;
  exit_country = some "SE";
  required_features = "tcp-connect-v1" ∷ [];
}

abbrev plan : GatewayPlan
plan = record { mode = enhanced; hops = hop entry both ∷ hop exit far ∷ [] }

selects-plan : select_plan (both ∷ far ∷ []) swedish ≡ ok plan
unfolding select_plan select_hops suits
selects-plan = refl

-- One gateway does not serve as entry and exit.
needs-two : select_plan (both ∷ []) swedish ≡ err no_gateway
unfolding select_plan select_hops suits
needs-two = refl

select_plan_sound_example :
    (enhanced ≡ enhanced)
    × AreHops (both ∷ far ∷ []) swedish [] (entry ∷ exit ∷ []) (hop entry both ∷ hop exit far ∷ [])
select_plan_sound_example = select_plan_sound (both ∷ far ∷ []) swedish plan selects-plan
