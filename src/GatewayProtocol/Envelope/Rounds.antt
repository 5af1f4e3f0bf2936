-- ===== src/GatewayProtocol/Envelope/Rounds.antt =====
-- The scan of crates/gateway-protocol/src/framing.rs ends: a field takes bytes, so the rounds given to
-- the loop are enough.
use vpn_ne_vpn.Prelude.{
  Option, some, Result, err, null, unwrap_or, sym, ap, ◌∙◌, Bool-cases, ℕ, zero, suc, ◌+◌, ◌*◌, ◌%◌,
  ◌^◌, ◌≤◌, ◌<◌, ◌≡◌, ok, List, [], ◌∷◌, length, arith, inl, inr, Result-cases, length-drop, none,
}
use vpn_ne_vpn.GatewayProtocol.Error.{ProtocolError}
use vpn_ne_vpn.GatewayProtocol.Envelope.{
  Cursor, Scan, wire_from, read_wire_varint, skip_bytes, skip_wire_value, scan_field, scan_fields,
  scan_gateway_envelope,
}

wire_from_shorter :
    (rounds index value offset : ℕ) (bytes : List ℕ) (r : ℕ × Cursor)
    → wire_from rounds index value offset bytes ≡ ok r
    → length r.1.rest < length bytes
unfolding wire_from
wire_from_shorter zero index value offset bytes r h = ground arith
wire_from_shorter (suc rounds) index value offset [] r h = ground arith
wire_from_shorter (suc rounds) index value offset (b ∷ bs) r h = ground (
  arith,
  wire_from_shorter rounds (index + 1) (value + b % 128 * 2 ^ (index * 7)) (offset + 1) bs r,
)

skip_bytes-le : (n : ℕ) (c c' : Cursor) → skip_bytes n c ≡ ok c' → length c'.rest ≤ length c.rest
unfolding skip_bytes
skip_bytes-le n c c' h = ground (arith, length-drop n c.rest)

skip_wire_value-le :
    (w : ℕ) (c c' : Cursor) → skip_wire_value w c ≡ ok c' → length c'.rest ≤ length c.rest
unfolding skip_wire_value read_wire_varint
skip_wire_value-le w c c' h = elim (Result-cases (wire_from 10 0 0 c.offset c.rest)) [
  | inl (e, r) ↦ ground (arith, skip_bytes-le 8 c c', skip_bytes-le 4 c c')
  | inr (r, e) ↦ ground (
    arith,
    wire_from_shorter 10 0 0 c.offset c.rest r e,
    skip_bytes-le 8 c c',
    skip_bytes-le 4 c c',
    skip_bytes-le r.0 r.1 c',
  )
]

scan_field_shorter :
    (c : Cursor) (s : Scan) (r : Cursor × Scan)
    → scan_field c s ≡ ok r
    → length r.0.rest < length c.rest
unfolding scan_field read_wire_varint
scan_field_shorter c s r h = elim (Result-cases (wire_from 10 0 0 c.offset c.rest)) [
  | inl (e, k) ↦ ground arith
  | inr (k, e) ↦
      ground
        (arith, wire_from_shorter 10 0 0 c.offset c.rest k e, skip_wire_value-le (k.0 % 8) k.1 r.0)
]

-- The loop has ended, with this result.
abbrev Ended : Option (Result ProtocolError (Unit {0})) → Type 0
Ended o = (r : Result ProtocolError (Unit {0})) × (o ≡ some r)

scan_fields-Ended : (n : ℕ) (c : Cursor) (s : Scan) → length c.rest < n → Ended (scan_fields n c s)
unfolding scan_fields
scan_fields-Ended zero c s h = absurd (omega (arith, h))
scan_fields-Ended (suc n) c s h = elim (Bool-cases (null c.rest)) [
  | inl done ↦ (ok tt, ground (arith, done))
  | inr more ↦ elim (Result-cases (scan_field c s)) [
    | inl (e, k) ↦ (err e, ground (arith, more, k))
    | inr (r, k) ↦
        let fewer : length r.0.rest < n = omega (arith, h, scan_field_shorter c s r k) in
        let (q, ended) = scan_fields-Ended n r.0 r.1 fewer in (q, ground (arith, more, k, ended))
  ]
]

-- A loop that ended is not changed by more rounds.
more_rounds :
    (n m : ℕ) (c : Cursor) (s : Scan) (r : Result ProtocolError (Unit {0}))
    → n ≤ m
    → scan_fields n c s ≡ some r
    → scan_fields m c s ≡ some r
unfolding scan_fields
more_rounds zero m c s r le h = ground (arith, h)
more_rounds (suc n) zero c s r le h = absurd (omega (arith, le))
more_rounds (suc n) (suc m) c s r le h = elim (Bool-cases (null c.rest)) [
  | inl done ↦ ground (arith, done, h)
  | inr more ↦ elim (Result-cases (scan_field c s)) [
    | inl (e, k) ↦ ground (arith, more, k, h)
    | inr (q, k) ↦ ground (arith, more, k, h, more_rounds n m q.0 q.1 r (omega (arith, le)))
  ]
]

-- The loop of the envelope's scan ends by its own test or by an error: with any number of rounds above
-- the number of bytes they do not run out, and the result is that of `scan_gateway_envelope`.
pub scan_gateway_envelope_ends :
    (bytes : List ℕ) (n : ℕ)
    → length bytes < n
    → scan_fields n (record { offset = 0; rest = bytes }) (record { seen = []; body_tag = none })
      ≡ some (scan_gateway_envelope bytes)
unfolding scan_gateway_envelope
scan_gateway_envelope_ends bytes n h =
    let start : Cursor = record { offset = 0; rest = bytes } in
    let fresh : Scan = record { seen = []; body_tag = none } in
    let (r, e) = scan_fields-Ended (suc (length bytes)) start fresh (omega arith) in
    more_rounds (suc (length bytes)) n start fresh r (omega (arith, h)) e
    ∙ sym (ap (λ o. some (unwrap_or o (ok tt))) e)
