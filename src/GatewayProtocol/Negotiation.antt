-- ===== src/GatewayProtocol/Negotiation.antt =====
-- crates/gateway-protocol/src/negotiation.rs: the version of the protocol that a session speaks.
pub mod Versions
pub mod Capabilities
mod Tests
use vpn_ne_vpn.Prelude.{
  ℕ, Bool, true, false, not, ◌&&◌, ◌||◌, if◌then◌else◌, ltb, ◌==◌, min, max, Result, ok, err, ok_or,
  and_then, Option, some, none,
}
use vpn_ne_vpn.GatewayProtocol.Error.{
  ProtocolError, invalid_field, incompatible_version, silent_downgrade,
}

pub record ProtocolVersion : Type 0 where
  pub major : ℕ
  pub minor : ℕ

pub record ProtocolVersionRange : Type 0 where
  pub minimum : Option ProtocolVersion
  pub maximum : Option ProtocolVersion

abbrev pub version : ℕ → ℕ → ProtocolVersion
version major minor = record { major = major; minor = minor }

abbrev pub version_range : ℕ → ℕ → ℕ → ProtocolVersionRange
version_range major minimum_minor maximum_minor = record {
  minimum = some (version major minimum_minor);
  maximum = some (version major maximum_minor);
}

-- The bounds of a range, which `validate_version_range` returns as a triple.
pub record Bounds : Type 0 where
  pub major : ℕ
  pub lowest : ℕ
  pub highest : ℕ

unfoldable pub validate_version_range : ProtocolVersionRange → Result ProtocolError Bounds
validate_version_range range =
    and_then (ok_or range.minimum (invalid_field "minimum_version")) λ minimum.
      and_then (ok_or range.maximum (invalid_field "maximum_version")) λ maximum.
        if minimum.major == 0
          || not (minimum.major == maximum.major)
          || ltb maximum.minor minimum.minor
        then err (invalid_field "supported_versions")
        else ok (record { major = minimum.major; lowest = minimum.minor; highest = maximum.minor })

unfoldable pub select_version :
    ProtocolVersionRange → ProtocolVersionRange → Result ProtocolError ProtocolVersion
unfolding validate_version_range
select_version client server = and_then (validate_version_range client) λ c.
    and_then (validate_version_range server) λ s.
      if not (c.major == s.major)
      then err incompatible_version
      else if ltb (min c.highest s.highest) (max c.lowest s.lowest)
      then err incompatible_version
      else ok (version c.major (min c.highest s.highest))

abbrev pub is_version : ProtocolVersion → ProtocolVersion → Bool
is_version v w = v.major == w.major && v.minor == w.minor

unfoldable pub verify_server_selection :
    ProtocolVersionRange → ProtocolVersionRange → ProtocolVersion → Result ProtocolError (Unit {0})
unfolding select_version
verify_server_selection client server selected =
    and_then (select_version client server)
      λ expected. if not (is_version expected selected) then err silent_downgrade else ok tt
