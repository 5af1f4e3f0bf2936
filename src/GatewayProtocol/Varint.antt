-- ===== src/GatewayProtocol/Varint.antt =====
-- The length prefix of crates/gateway-protocol/src/framing.rs: a canonical varint of 32 bits. Bytes are
-- numbers below 256, so `byte & 0x7f` is `byte % 128`, `byte & 0x80 == 0` is `byte < 128`, and
-- `(value as u8) | 0x80` is `value % 128 + 128`. The bits that `|=` adds lie above those of `value`,
-- so it is a sum.
pub mod Laws
use vpn_ne_vpn.Prelude.{
  ℕ, zero, suc, ◌+◌, ◌-◌, ◌*◌, ◌/◌, ◌%◌, ◌^◌, Bool, true, false, ◌&&◌, ◌||◌, not, if◌then◌else◌,
  ltb, leb, ◌==◌, Result, ok, err, List, [], ◌∷◌, length, null,
}
use vpn_ne_vpn.GatewayProtocol.Error.{ProtocolError, invalid_length_prefix, non_canonical_varint}

abbrev pub max_u32_varint_bytes : ℕ
max_u32_varint_bytes = 5

-- The `while` loop of `encode_u32_varint`, with its rounds bounded; five are enough for 32 bits.
push_groups : ℕ → ℕ → List ℕ
push_groups zero value = []
push_groups (suc rounds) value =
    let rest = push_groups rounds (value / 2 ^ 7) in
    if leb 0x80 value then (value % 128 + 128) ∷ rest else (value % 256) ∷ []

unfoldable pub encode_u32_varint : ℕ → List ℕ
unfolding push_groups
encode_u32_varint value = push_groups max_u32_varint_bytes value

-- The `for` loop of `decode_canonical_u32_varint` over `bytes.iter().enumerate()`.
decode_from : ℕ → ℕ → ℕ → List ℕ → Result ProtocolError ℕ
decode_from count index value [] = err invalid_length_prefix
decode_from count index value (byte ∷ bytes) =
    let bits = byte % 128 in
    let updated = value + bits * 2 ^ (index * 7) in
    let minimum = if index == 0 then 0 else 2 ^ (index * 7) in
    let rest = decode_from count (index + 1) updated bytes in
    if index == 4 && ltb 0x0f bits
    then err invalid_length_prefix
    else if ltb byte 0x80
    then (if not (index + 1 == count)
        then err invalid_length_prefix
        else if ltb updated minimum
        then err non_canonical_varint
        else ok updated)
    else rest

unfoldable pub decode_canonical_u32_varint : List ℕ → Result ProtocolError ℕ
unfolding decode_from
decode_canonical_u32_varint bytes =
    if null bytes || ltb max_u32_varint_bytes (length bytes)
    then err invalid_length_prefix
    else decode_from (length bytes) 0 0 bytes
