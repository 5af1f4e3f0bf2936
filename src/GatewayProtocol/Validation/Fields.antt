-- ===== src/GatewayProtocol/Validation/Fields.antt =====
-- crates/gateway-protocol/src/validation.rs: the checks of single fields, and the bounds of limits.rs
-- that they use. A `known_enum` is a number up to the last value of the enum.
use vpn_ne_vpn.Prelude.{
  ℕ, ◌*◌, Bool, false, not, ◌&&◌, ◌||◌, if◌then◌else◌, ltb, leb, ◌==◌, Result, ok, err, List,
  length, null, all, String, ◌also◌,
}
use vpn_ne_vpn.Prelude.Ints.{ℤ, pos, negsuc, is_zero}
use vpn_ne_vpn.Prelude.Texts.{
  is_empty, bytes, all_bytes, is_ascii, is_ascii_uppercase, codes, first_is, last_is, split,
}
use vpn_ne_vpn.GatewayProtocol.Error.{ProtocolError, invalid_field}
use vpn_ne_vpn.GatewayProtocol.Limits.{
  absolute_max_frame_size, min_negotiable_frame_size, max_stream_window, max_connection_window,
}

abbrev pub max_data_payload : ℕ
max_data_payload = 32 * 1024

abbrev pub max_capability_token : ℕ
max_capability_token = 4 * 1024

abbrev pub max_proof_of_possession : ℕ
max_proof_of_possession = 4 * 1024

abbrev pub max_hostname : ℕ
max_hostname = 253

abbrev pub max_resolve_addresses : ℕ
max_resolve_addresses = 16

abbrev pub max_timeout_ms : ℕ
max_timeout_ms = 120000

abbrev pub max_session_ttl_seconds : ℕ
max_session_ttl_seconds = 86400

abbrev pub max_drain_timeout_ms : ℕ
max_drain_timeout_ms = 30000

-- `if b { return Err(InvalidField(field)); }`
abbrev pub fail : Bool → String → Result ProtocolError (Unit {0})
fail b field = if b then err (invalid_field field) else ok tt

-- The last value of each enum.
abbrev pub error_codes : ℕ
error_codes = 12

abbrev pub close_codes : ℕ
close_codes = 7

abbrev pub retry_hints : ℕ
retry_hints = 6

abbrev pub address_families : ℕ
address_families = 3

abbrev pub rotation_reasons : ℕ
rotation_reasons = 3

abbrev pub anonymity_modes : ℕ
anonymity_modes = 4

abbrev pub is_direct_tor : ℤ → Bool
is_direct_tor (pos n) = n == 4
is_direct_tor (negsuc n) = false

abbrev pub is_known : ℕ → ℤ → Bool
is_known last (pos n) = leb n last
is_known last (negsuc n) = false

unfoldable pub known_enum : ℕ → ℤ → String → Result ProtocolError (Unit {0})
known_enum last value field = fail (not (is_known last value)) field

unfoldable pub known_nonzero_enum : ℕ → ℤ → String → Result ProtocolError (Unit {0})
unfolding known_enum
known_nonzero_enum last value field = fail (is_zero value) field also known_enum last value field

unfoldable pub exact_length : List ℕ → ℕ → String → Result ProtocolError (Unit {0})
exact_length value expected field = fail (not (length value == expected)) field

unfoldable pub bounded_range : List ℕ → ℕ → ℕ → String → Result ProtocolError (Unit {0})
bounded_range value minimum maximum field =
    fail (not (leb minimum (length value) && leb (length value) maximum)) field

unfoldable pub bounded_nonempty : List ℕ → ℕ → String → Result ProtocolError (Unit {0})
unfolding bounded_range
bounded_nonempty value maximum field = bounded_range value 1 maximum field

abbrev pub is_label_byte : ℕ → Bool
is_label_byte b =
    (leb 97 b && leb b 122) || (leb 65 b && leb b 90) || (leb 48 b && leb b 57) || b == 45

-- A label between dots, by its bytes.
unfoldable pub is_label : List ℕ → Bool
is_label label = not (
    null label
    || ltb 63 (length label)
    || first_is 45 label
    || last_is 45 label
    || not (all is_label_byte label))

unfoldable pub validate_hostname : String → Result ProtocolError (Unit {0})
unfolding is_label
validate_hostname hostname =
    fail
      (is_empty hostname
        || ltb max_hostname (bytes hostname)
        || not (all_bytes is_ascii hostname)
        || last_is 46 (codes hostname))
      "hostname"
    also fail (not (all is_label (split 46 (codes hostname)))) "hostname"

unfoldable pub validate_ip_address : List ℕ → Result ProtocolError (Unit {0})
validate_ip_address address = fail (not (length address == 4 || length address == 16)) "ip_address"

unfoldable pub validate_country : String → Result ProtocolError (Unit {0})
validate_country country =
    fail
      (not (is_empty country)
        && (not (bytes country == 2) || not (all_bytes is_ascii_uppercase country)))
      "desired_country"

unfoldable pub validate_frame_limit : ℕ → Result ProtocolError (Unit {0})
validate_frame_limit value =
    fail (not (leb min_negotiable_frame_size value && leb value absolute_max_frame_size))
      "maximum_frame_size"

unfoldable pub validate_connection_window : ℕ → Result ProtocolError (Unit {0})
validate_connection_window value =
    fail (value == 0 || ltb max_connection_window value) "connection_window"

unfoldable pub validate_stream_window : ℕ → Result ProtocolError (Unit {0})
validate_stream_window value = fail (value == 0 || ltb max_stream_window value) "stream_window"

unfoldable pub validate_timeout : ℕ → Result ProtocolError (Unit {0})
validate_timeout value = fail (value == 0 || ltb max_timeout_ms value) "timeout_ms"

unfoldable pub validate_drain_timeout : ℕ → Result ProtocolError (Unit {0})
validate_drain_timeout value =
    fail (value == 0 || ltb max_drain_timeout_ms value) "drain_timeout_ms"
