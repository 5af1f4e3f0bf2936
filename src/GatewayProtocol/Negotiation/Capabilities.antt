-- ===== src/GatewayProtocol/Negotiation/Capabilities.antt =====
-- crates/gateway-protocol/src/negotiation.rs: the capabilities that a session enables.
pub mod Agreement
use vpn_ne_vpn.Prelude.{
  ℕ, Bool, true, false, not, ◌&&◌, ◌||◌, if◌then◌else◌, ltb, leb, ◌==◌, Result, ok, err, and_then,
  List, [], ◌∷◌, length, any, all, String, unwrap_or,
}
use vpn_ne_vpn.Prelude.Maps.{string_eq, is_some}
use vpn_ne_vpn.Prelude.Sets.{contains, collect}
use vpn_ne_vpn.Prelude.Texts.{
  is_empty, all_bytes, bytes, codes, first_is, last_is, is_ascii, strip_prefix,
}
use vpn_ne_vpn.GatewayProtocol.Error.{
  ProtocolError, invalid_field, incompatible_version, protocol_violation,
}

abbrev pub max_capabilities : ℕ
max_capabilities = 32

abbrev pub max_capability_name : ℕ
max_capability_name = 64

-- The name without `required:`.
abbrev pub plain_name : String → String
plain_name value = unwrap_or (strip_prefix "required:" value) value

abbrev pub is_required : String → Bool
is_required value = is_some (strip_prefix "required:" value)

-- Lower case, digits, `-`, `:` and `.`
abbrev pub is_name_byte : ℕ → Bool
is_name_byte b = (leb 97 b && leb b 122) || (leb 48 b && leb b 57) || b == 45 || b == 58 || b == 46

abbrev pub is_framed : String → Bool
is_framed name = is_empty name || first_is 45 (codes name) || last_is 45 (codes name)

-- The two tests of one capability in the loop of `validate_capabilities`.
unfoldable pub is_capability : String → Bool
is_capability value =
    not (
      is_empty value
      || ltb max_capability_name (bytes value)
      || not (all_bytes is_ascii value)
      || not (all_bytes is_name_byte value))
    && not (is_framed (plain_name value))

unfoldable pub validate_capabilities : List String → Result ProtocolError (Unit {0})
unfolding is_capability
validate_capabilities capabilities =
    if ltb max_capabilities (length capabilities)
    then err (invalid_field "capabilities")
    else if all is_capability capabilities
    then ok tt
    else err (invalid_field "capability_name")

-- The loop of `negotiate_capabilities`, with the set `names`; what it enables stands in order.
unfoldable pub negotiate_from :
    List String → List String → List String → Result ProtocolError (List String)
negotiate_from supported names [] = ok []
negotiate_from supported names (value ∷ requested) =
    let rest = negotiate_from supported (plain_name value ∷ names) requested in
    if contains names (plain_name value)
    then err (invalid_field "duplicate_capability")
    else if contains supported (plain_name value)
    then and_then rest (λ enabled. ok (plain_name value ∷ enabled))
    else if is_required value
    then err incompatible_version
    else rest

unfoldable pub negotiate_capabilities :
    List String → List String → Result ProtocolError (List String)
unfolding validate_capabilities negotiate_from
negotiate_capabilities requested server_supported =
    and_then (validate_capabilities requested) λ _. negotiate_from server_supported [] requested

-- `requested_names`, and the answer to a required one.
abbrev pub names : List String → List String
names [] = []
names (value ∷ requested) = plain_name value ∷ names requested

abbrev pub is_missing : List String → String → Bool
is_missing enabled value = is_required value && not (contains enabled (plain_name value))

unfoldable pub verify_enabled_capabilities :
    List String → List String → Result ProtocolError (Unit {0})
unfolding validate_capabilities
verify_enabled_capabilities requested enabled = and_then (validate_capabilities requested) λ _.
    and_then (validate_capabilities enabled) λ _.
      let enabled_names = collect enabled in
      if not (length enabled_names == length enabled)
        || any (λ name. not (contains (collect (names requested)) name)) enabled_names
      then err (protocol_violation "server enabled an unrequested capability")
      else if any (is_missing enabled_names) requested
      then err incompatible_version
      else ok tt
