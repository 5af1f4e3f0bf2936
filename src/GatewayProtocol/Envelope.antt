-- ===== src/GatewayProtocol/Envelope.antt =====
-- The scan of a frame's protobuf envelope in crates/gateway-protocol/src/framing.rs. The offset into the
-- bytes is kept beside the bytes from there on. An offset is at most the length of a slice, so its
-- `checked_add(1)` succeeds; that of a field's length is modelled.
pub mod Rounds
use vpn_ne_vpn.Prelude.{
  ℕ, zero, suc, ◌+◌, ◌-◌, ◌*◌, ◌/◌, ◌%◌, ◌^◌, Bool, true, false, ◌&&◌, ◌||◌, not, if◌then◌else◌,
  ltb, leb, ◌==◌, u32_max, Result, ok, err, ok_or, and_then, Option, some, none, List, [], ◌∷◌,
  length, drop, null, checked_add, unwrap_or,
}
use vpn_ne_vpn.Prelude.Members.{member}
use vpn_ne_vpn.GatewayProtocol.Error.{
  ProtocolError, protocol_violation, truncated_wire_value, non_canonical_varint, integer_overflow,
  unknown_message_tag, duplicate_field,
}

abbrev pub first_message_tag : ℕ
first_message_tag = 10

abbrev pub last_v1_message_tag : ℕ
last_v1_message_tag = 28

abbrev pub last_reserved_message_tag : ℕ
last_reserved_message_tag = 63

-- A place in the bytes: the offset, and the bytes from there on.
pub record Cursor : Type 0 where
  pub offset : ℕ
  pub rest : List ℕ

-- The `for` loop of `read_wire_varint`; its 10 rounds are those of the code.
wire_from : ℕ → ℕ → ℕ → ℕ → List ℕ → Result ProtocolError (ℕ × Cursor)
wire_from zero index value offset rest = err (protocol_violation "protobuf varint overflow")
wire_from (suc rounds) index value offset [] = err truncated_wire_value
wire_from (suc rounds) index value offset (byte ∷ bytes) =
    let bits = byte % 128 in
    let updated = value + bits * 2 ^ (index * 7) in
    let more = wire_from rounds (index + 1) updated (offset + 1) bytes in
    if index == 9 && ltb 1 bits
    then err (protocol_violation "protobuf varint overflow")
    else if ltb byte 0x80
    then (if ltb 0 index && ltb updated (2 ^ (index * 7))
        then err non_canonical_varint
        else ok (updated, record { offset = offset + 1; rest = bytes }))
    else more

unfoldable pub read_wire_varint : Cursor → Result ProtocolError (ℕ × Cursor)
unfolding wire_from
read_wire_varint c = wire_from 10 0 0 c.offset c.rest

-- The end of `skip_wire_value`, when the length of the value is known.
skip_bytes : ℕ → Cursor → Result ProtocolError Cursor
skip_bytes count c = and_then (ok_or (checked_add c.offset count) integer_overflow) λ end.
    if ltb (c.offset + length c.rest) end
    then err truncated_wire_value
    else ok (record { offset = end; rest = drop count c.rest })

unfoldable pub skip_wire_value : ℕ → Cursor → Result ProtocolError Cursor
unfolding skip_bytes
skip_wire_value wire_type c =
    if wire_type == 0
    then and_then (read_wire_varint c) (λ r. ok r.1)
    else if wire_type == 1
    then skip_bytes 8 c
    else if wire_type == 2
    then and_then (read_wire_varint c) (λ r. skip_bytes r.0 r.1)
    else if wire_type == 5
    then skip_bytes 4 c
    else err (protocol_violation "unsupported protobuf wire type")

-- The wire type that an envelope field must have, if it must have one.
unfoldable pub expected_wire_type : ℕ → Result ProtocolError (Option ℕ)
expected_wire_type tag =
    if tag == 1
    then ok (some 0)
    else if tag == 2 || tag == 4 || (leb first_message_tag tag && leb tag last_v1_message_tag)
    then ok (some 2)
    else if tag == 3
    then ok none
    else if leb 5 tag && leb tag 9
    then err (protocol_violation "reserved envelope field")
    else if leb 29 tag && leb tag last_reserved_message_tag
    then err (unknown_message_tag tag)
    else ok none

-- What the scan has met: the tags whose slot of `seen` is set, and the tag of the body.
pub record Scan : Type 0 where
  pub seen : List ℕ
  pub body_tag : Option ℕ

abbrev mismatched : Option ℕ → ℕ → Bool
mismatched none wire_type = false
mismatched (some expected) wire_type = not (wire_type == expected)

abbrev is_body : ℕ → Bool
is_body tag = leb first_message_tag tag && leb tag last_v1_message_tag

abbrev had_body : Option ℕ → Bool
had_body none = false
had_body (some tag) = true

-- The checks of one field, by its tag and wire type.
unfoldable pub note_field : ℕ → ℕ → Scan → Result ProtocolError Scan
unfolding expected_wire_type
note_field tag wire_type s =
    if tag == 0
    then err (protocol_violation "protobuf tag zero")
    else and_then (expected_wire_type tag) λ expected.
      if mismatched expected wire_type
      then err (protocol_violation "invalid envelope wire type")
      else let slotted = leb tag last_v1_message_tag && not (tag == 3) in
        if slotted && member tag s.seen
        then err (duplicate_field tag)
        else if is_body tag && had_body s.body_tag
        then err (protocol_violation "multiple frame bodies")
        else ok (record {
          seen = if slotted then tag ∷ s.seen else s.seen;
          body_tag = if is_body tag then some tag else s.body_tag;
        })

-- One round of the `while` loop.
unfoldable pub scan_field : Cursor → Scan → Result ProtocolError (Cursor × Scan)
unfolding note_field
scan_field c s = and_then (read_wire_varint c) λ r.
    let key = r.0 in
    if ltb u32_max (key / 2 ^ 3)
    then err integer_overflow
    else and_then (note_field (key / 2 ^ 3) (key % 8) s)
        λ s'. and_then (skip_wire_value (key % 8) r.1) λ c'. ok (c', s')

-- The `while` loop, with its rounds bounded: `none` if they run out before the loop's own test ends it.
pub scan_fields : ℕ → Cursor → Scan → Option (Result ProtocolError (Unit {0}))
scan_fields zero c s = none
scan_fields (suc rounds) c s = elim (null c.rest) [
  | true ↦ some (ok tt)
  | false ↦ elim (scan_field c s) [ err e ↦ some (err e) | ok r ↦ scan_fields rounds r.0 r.1 ]
]

-- One round more than there are bytes; the default is for the `none` of the bound.
unfoldable pub scan_gateway_envelope : List ℕ → Result ProtocolError (Unit {0})
unfolding scan_fields
scan_gateway_envelope bytes =
    unwrap_or
      (scan_fields (suc (length bytes)) (record { offset = 0; rest = bytes })
        (record { seen = []; body_tag = none }))
      (ok tt)
