-- ===== src/GatewayProtocol/Negotiation/Tests.antt =====
-- The choice of a version at concrete ranges.
use vpn_ne_vpn.Prelude.{◌≡◌, refl, ok, err, List, [], ◌∷◌, String}
use vpn_ne_vpn.GatewayProtocol.Error.{silent_downgrade}
use vpn_ne_vpn.GatewayProtocol.Negotiation.{
  ProtocolVersionRange, version, version_range, select_version, verify_server_selection,
}
use vpn_ne_vpn.GatewayProtocol.Negotiation.Versions.{
  IsBest, select_version_iff, select_version_symmetric,
}
use vpn_ne_vpn.Prelude.Maps.{string_eq}
use vpn_ne_vpn.GatewayProtocol.Negotiation.Capabilities.{
  negotiate_capabilities, verify_enabled_capabilities,
}
use vpn_ne_vpn.GatewayProtocol.Negotiation.Capabilities.Agreement.{verify-negotiate}

abbrev old : ProtocolVersionRange
old = version_range 1 0 3

abbrev recent : ProtocolVersionRange
recent = version_range 1 2 7

refuses-downgrade : verify_server_selection old recent (version 1 2) ≡ err silent_downgrade
unfolding verify_server_selection select_version
refuses-downgrade = refl

select_version_iff_example : IsBest old recent (version 1 3)
unfolding select_version
select_version_iff_example = (select_version_iff old recent (version 1 3)).0 refl

select_version_symmetric_example : select_version recent old ≡ ok (version 1 3)
unfolding select_version
select_version_symmetric_example = select_version_symmetric old recent (version 1 3) refl

abbrev wanted : List String
wanted = "required:tcp-connect-v1" ∷ "flow-control-v1" ∷ []

abbrev offered : List String
offered = "resolve-domain-v1" ∷ "tcp-connect-v1" ∷ []

verify-negotiate_example : verify_enabled_capabilities wanted ("tcp-connect-v1" ∷ []) ≡ ok tt
unfolding negotiate_capabilities
verify-negotiate_example =
    verify-negotiate wanted offered ("tcp-connect-v1" ∷ []) (refl, (refl, tt)) refl
