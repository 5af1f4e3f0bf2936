-- ===== src/Policy/Plan.antt =====
-- crates/policy-engine/src/lib.rs: the gateway plan of a route. Identifiers, countries, endpoints and
-- features are texts, the pinned hash is its bytes.
pub mod Hops
mod Tests
use vpn_ne_vpn.Prelude.{
  ℕ, Bool, true, false, ◌&&◌, ◌||◌, not, if◌then◌else◌, Result, ok, err, ok_or, and_then, Option,
  some, none, List, [], ◌∷◌, any, all, String,
}
use vpn_ne_vpn.Prelude.Maps.{string_eq}
use vpn_ne_vpn.Client.Error.{
  OnionError, policy, gateway_unavailable, error, after_directory_refresh, protected,
}

pub data GatewayRole : Type 0 where
  entry relay exit : GatewayRole

pub data AnonymityMode : Type 0 where
  standard enhanced maximum direct_tor : AnonymityMode

pub record GatewayDescriptor : Type 0 where
  pub gateway_id : String
  pub country : String
  pub roles : List GatewayRole
  pub endpoint : String
  pub tls_spki_sha256 : List ℕ
  pub protocols : List (ℕ × ℕ)
  pub capabilities : List String

pub record RouteConstraints : Type 0 where
  pub mode : AnonymityMode
  pub exit_country : Option String
  pub required_features : List String

pub record GatewayHop : Type 0 where
  pub gateway_id : String
  pub role : GatewayRole
  pub onion_endpoint : String
  pub tls_spki_sha256 : List ℕ

pub record GatewayPlan : Type 0 where
  pub mode : AnonymityMode
  pub hops : List GatewayHop

abbrev pub no_gateway : OnionError
no_gateway = record {
  domain = policy;
  code = gateway_unavailable;
  severity = error;
  retry = after_directory_refresh;
  safety = protected;
  message = "no verified gateway satisfies route policy";
}

abbrev pub roles_of : AnonymityMode → List GatewayRole
roles_of standard = exit ∷ []
roles_of enhanced = entry ∷ exit ∷ []
roles_of maximum = entry ∷ relay ∷ exit ∷ []
roles_of direct_tor = []

abbrev pub is_role : GatewayRole → GatewayRole → Bool
is_role entry entry = true
is_role relay relay = true
is_role exit exit = true
is_role _ _ = false

abbrev pub is_exit : GatewayRole → Bool
is_exit exit = true
is_exit _ = false

abbrev pub contains : List String → String → Bool
contains xs x = any (λ y. string_eq.beq y x) xs

-- A country is asked of the exit only.
abbrev pub country_allowed : Option String → GatewayRole → GatewayDescriptor → Bool
country_allowed none role gateway = true
country_allowed (some country) role gateway =
    not (is_exit role) || string_eq.beq gateway.country country

-- The condition of `find`.
unfoldable pub suits : RouteConstraints → GatewayRole → List String → GatewayDescriptor → Bool
suits constraints role selected gateway =
    any (λ r. is_role r role) gateway.roles
    && not (contains selected gateway.gateway_id)
    && all (λ f. contains gateway.capabilities f) constraints.required_features
    && country_allowed constraints.exit_country role gateway

abbrev pub find : (GatewayDescriptor → Bool) → List GatewayDescriptor → Option GatewayDescriptor
find p [] = none
find p (g ∷ gs) = if p g then some g else find p gs

abbrev pub hop : GatewayRole → GatewayDescriptor → GatewayHop
hop role g = record {
  gateway_id = g.gateway_id;
  role = role;
  onion_endpoint = g.endpoint;
  tls_spki_sha256 = g.tls_spki_sha256;
}

-- The `for` loop over the roles, with `selected_ids`.
unfoldable pub select_hops :
    List GatewayDescriptor
    → RouteConstraints
    → List String
    → List GatewayRole
    → Result OnionError (List GatewayHop)
select_hops gateways constraints selected [] = ok []
select_hops gateways constraints selected (role ∷ roles) =
    and_then (ok_or (find (suits constraints role selected) gateways) no_gateway) λ g.
      and_then (select_hops gateways constraints (g.gateway_id ∷ selected) roles)
        λ hops. ok (hop role g ∷ hops)

unfoldable pub select_plan :
    List GatewayDescriptor → RouteConstraints → Result OnionError GatewayPlan
unfolding select_hops
select_plan gateways constraints =
    and_then (select_hops gateways constraints [] (roles_of constraints.mode))
      λ hops. ok (record { mode = constraints.mode; hops = hops })
