-- ===== src/GatewayProtocol/Varint/Laws.antt =====
-- The length prefix of crates/gateway-protocol/src/framing.rs: its two directions are inverse.
use vpn_ne_vpn.Prelude.{
  ℕ, ◌+◌, ◌*◌, ◌/◌, ◌%◌, ◌^◌, ◌≤◌, ◌<◌, ◌≡◌, ok, List, [], ◌∷◌, length, arith, dec_lt, ◌≢◌,
}
use vpn_ne_vpn.Prelude.Bytes.{AllBytes}
use vpn_ne_vpn.GatewayProtocol.Varint.{encode_u32_varint, decode_canonical_u32_varint}

encode_1 : (v : ℕ) → v < 128 → encode_u32_varint v ≡ (v) ∷ []
unfolding encode_u32_varint
encode_1 v hi = ground arith

decode_1 : (v : ℕ) → v < 128 → decode_canonical_u32_varint ((v) ∷ []) ≡ ok v
unfolding decode_canonical_u32_varint
decode_1 v hi = ground arith

encode_2 : (v : ℕ) → 128 ≤ v → v < 16_384 → encode_u32_varint v ≡ (v % 128 + 128) ∷ (v / 2 ^ 7) ∷ []
unfolding encode_u32_varint
encode_2 v lo hi = ground arith

decode_2 :
    (v : ℕ)
    → 128 ≤ v
    → v < 16_384
    → decode_canonical_u32_varint ((v % 128 + 128) ∷ (v / 2 ^ 7) ∷ []) ≡ ok v
unfolding decode_canonical_u32_varint
decode_2 v lo hi = ground arith

encode_3 :
    (v : ℕ)
    → 16_384 ≤ v
    → v < 2_097_152
    → encode_u32_varint v ≡ (v % 128 + 128) ∷ ((v / 2 ^ 7) % 128 + 128) ∷ (v / 2 ^ 7 / 2 ^ 7) ∷ []
unfolding encode_u32_varint
encode_3 v lo hi = ground arith

decode_3 :
    (v : ℕ)
    → 16_384 ≤ v
    → v < 2_097_152
    → decode_canonical_u32_varint
        ((v % 128 + 128) ∷ ((v / 2 ^ 7) % 128 + 128) ∷ (v / 2 ^ 7 / 2 ^ 7) ∷ [])
      ≡ ok v
unfolding decode_canonical_u32_varint
decode_3 v lo hi = ground arith

encode_4 :
    (v : ℕ)
    → 2_097_152 ≤ v
    → v < 268_435_456
    → encode_u32_varint v
      ≡ (v % 128 + 128)
        ∷ ((v / 2 ^ 7) % 128 + 128)
        ∷ ((v / 2 ^ 7 / 2 ^ 7) % 128 + 128)
        ∷ (v / 2 ^ 7 / 2 ^ 7 / 2 ^ 7)
        ∷ []
unfolding encode_u32_varint
encode_4 v lo hi = ground arith

decode_4 :
    (v : ℕ)
    → 2_097_152 ≤ v
    → v < 268_435_456
    → decode_canonical_u32_varint (
        (v % 128 + 128)
        ∷ ((v / 2 ^ 7) % 128 + 128)
        ∷ ((v / 2 ^ 7 / 2 ^ 7) % 128 + 128)
        ∷ (v / 2 ^ 7 / 2 ^ 7 / 2 ^ 7)
        ∷ [])
      ≡ ok v
unfolding decode_canonical_u32_varint
decode_4 v lo hi = ground arith

encode_5 :
    (v : ℕ)
    → 268_435_456 ≤ v
    → v < 4_294_967_296
    → encode_u32_varint v
      ≡ (v % 128 + 128)
        ∷ ((v / 2 ^ 7) % 128 + 128)
        ∷ ((v / 2 ^ 7 / 2 ^ 7) % 128 + 128)
        ∷ ((v / 2 ^ 7 / 2 ^ 7 / 2 ^ 7) % 128 + 128)
        ∷ (v / 2 ^ 7 / 2 ^ 7 / 2 ^ 7 / 2 ^ 7)
        ∷ []
unfolding encode_u32_varint
encode_5 v lo hi = ground arith

decode_5 :
    (v : ℕ)
    → 268_435_456 ≤ v
    → v < 4_294_967_296
    → decode_canonical_u32_varint (
        (v % 128 + 128)
        ∷ ((v / 2 ^ 7) % 128 + 128)
        ∷ ((v / 2 ^ 7 / 2 ^ 7) % 128 + 128)
        ∷ ((v / 2 ^ 7 / 2 ^ 7 / 2 ^ 7) % 128 + 128)
        ∷ (v / 2 ^ 7 / 2 ^ 7 / 2 ^ 7 / 2 ^ 7)
        ∷ [])
      ≡ ok v
unfolding decode_canonical_u32_varint
decode_5 v lo hi = ground arith

-- A length of 32 bits is decoded from its own encoding.
pub decode-encode : (v : ℕ) → v < 2 ^ 32 → decode_canonical_u32_varint (encode_u32_varint v) ≡ ok v
decode-encode v h = elim (dec_lt v 128) [
  | yes a ↦ rw (encode_1 v a) (decode_1 v a)
  | no a ↦ elim (dec_lt v 16_384) [
    | yes b ↦ rw (encode_2 v (omega arith) b) (decode_2 v (omega arith) b)
    | no b ↦ elim (dec_lt v 2_097_152) [
      | yes c ↦ rw (encode_3 v (omega arith) c) (decode_3 v (omega arith) c)
      | no c ↦ elim (dec_lt v 268_435_456) [
        | yes d ↦ rw (encode_4 v (omega arith) d) (decode_4 v (omega arith) d)
        | no d ↦
            rw (encode_5 v (omega arith) (omega arith)) (decode_5 v (omega arith) (omega arith))
      ]
    ]
  ]
]

-- What five bytes decode to.
decoded_5 :
    (b0 b1 b2 b3 b4 v : ℕ)
    → AllBytes (b0 ∷ b1 ∷ b2 ∷ b3 ∷ b4 ∷ [])
    → decode_canonical_u32_varint (b0 ∷ b1 ∷ b2 ∷ b3 ∷ b4 ∷ []) ≡ ok v
    → (128 ≤ b0)
      × (128 ≤ b1)
      × (128 ≤ b2)
      × (128 ≤ b3)
      × (1 ≤ b4)
      × (b4 < 16)
      × (v
          ≡ b0 % 128 + (b1 % 128) * 2 ^ 7 + (b2 % 128) * 2 ^ 14 + (b3 % 128) * 2 ^ 21 + b4 * 2 ^ 28)
unfolding decode_canonical_u32_varint
decoded_5 b0 b1 b2 b3 b4 v b h = ground arith

encode-decoded_5 :
    (b0 b1 b2 b3 b4 v : ℕ)
    → AllBytes (b0 ∷ b1 ∷ b2 ∷ b3 ∷ b4 ∷ [])
    → decode_canonical_u32_varint (b0 ∷ b1 ∷ b2 ∷ b3 ∷ b4 ∷ []) ≡ ok v
    → encode_u32_varint v ≡ b0 ∷ b1 ∷ b2 ∷ b3 ∷ b4 ∷ []
encode-decoded_5 b0 b1 b2 b3 b4 v b h =
    let (h0, h1, h2, h3, h4, h5, e) = decoded_5 b0 b1 b2 b3 b4 v b h in
    let c0 : v % 128 + 128 ≡ b0 = omega arith in
    let c1 : v / 2 ^ 7 % 128 + 128 ≡ b1 = omega arith in
    let c2 : v / 2 ^ 7 / 2 ^ 7 % 128 + 128 ≡ b2 = omega arith in
    let c3 : v / 2 ^ 7 / 2 ^ 7 / 2 ^ 7 % 128 + 128 ≡ b3 = omega arith in
    let c4 : v / 2 ^ 7 / 2 ^ 7 / 2 ^ 7 / 2 ^ 7 ≡ b4 = omega arith in
    rw (encode_5 v (omega arith) (omega arith)) (cc (c0, c1, c2, c3, c4))

encode-decoded_1 :
    (b0 v : ℕ)
    → AllBytes (b0 ∷ [])
    → decode_canonical_u32_varint (b0 ∷ []) ≡ ok v
    → (v < 2 ^ 32) × (encode_u32_varint v ≡ b0 ∷ [])
unfolding decode_canonical_u32_varint encode_u32_varint
encode-decoded_1 b0 v b h = ground arith

encode-decoded_2 :
    (b0 b1 v : ℕ)
    → AllBytes (b0 ∷ b1 ∷ [])
    → decode_canonical_u32_varint (b0 ∷ b1 ∷ []) ≡ ok v
    → (v < 2 ^ 32) × (encode_u32_varint v ≡ b0 ∷ b1 ∷ [])
unfolding decode_canonical_u32_varint encode_u32_varint
encode-decoded_2 b0 b1 v b h = ground arith

encode-decoded_3 :
    (b0 b1 b2 v : ℕ)
    → AllBytes (b0 ∷ b1 ∷ b2 ∷ [])
    → decode_canonical_u32_varint (b0 ∷ b1 ∷ b2 ∷ []) ≡ ok v
    → (v < 2 ^ 32) × (encode_u32_varint v ≡ b0 ∷ b1 ∷ b2 ∷ [])
unfolding decode_canonical_u32_varint encode_u32_varint
encode-decoded_3 b0 b1 b2 v b h = ground arith

encode-decoded_4 :
    (b0 b1 b2 b3 v : ℕ)
    → AllBytes (b0 ∷ b1 ∷ b2 ∷ b3 ∷ [])
    → decode_canonical_u32_varint (b0 ∷ b1 ∷ b2 ∷ b3 ∷ []) ≡ ok v
    → (v < 2 ^ 32) × (encode_u32_varint v ≡ b0 ∷ b1 ∷ b2 ∷ b3 ∷ [])
unfolding decode_canonical_u32_varint encode_u32_varint
encode-decoded_4 b0 b1 b2 b3 v b h = ground arith

too_long :
    (b0 b1 b2 b3 b4 b5 v : ℕ) (bs : List ℕ)
    → decode_canonical_u32_varint (b0 ∷ b1 ∷ b2 ∷ b3 ∷ b4 ∷ b5 ∷ bs) ≢ ok v
unfolding decode_canonical_u32_varint
too_long b0 b1 b2 b3 b4 b5 v bs h = ground arith

no_bytes : (v : ℕ) → decode_canonical_u32_varint [] ≢ ok v
unfolding decode_canonical_u32_varint
no_bytes v h = ground arith

-- The encoding is canonical: bytes that are accepted as a length are the encoding of that length, and
-- the length fits 32 bits.
pub encode-decode :
    (bs : List ℕ) (v : ℕ)
    → AllBytes bs
    → decode_canonical_u32_varint bs ≡ ok v
    → (v < 2 ^ 32) × (encode_u32_varint v ≡ bs)
encode-decode [] v b h = absurd (no_bytes v h)
encode-decode (b0 ∷ []) v b h = encode-decoded_1 b0 v b h
encode-decode (b0 ∷ b1 ∷ []) v b h = encode-decoded_2 b0 b1 v b h
encode-decode (b0 ∷ b1 ∷ b2 ∷ []) v b h = encode-decoded_3 b0 b1 b2 v b h
encode-decode (b0 ∷ b1 ∷ b2 ∷ b3 ∷ []) v b h = encode-decoded_4 b0 b1 b2 b3 v b h
encode-decode (b0 ∷ b1 ∷ b2 ∷ b3 ∷ b4 ∷ []) v b h =
    (omega (arith, decoded_5 b0 b1 b2 b3 b4 v b h), encode-decoded_5 b0 b1 b2 b3 b4 v b h)
encode-decode (b0 ∷ b1 ∷ b2 ∷ b3 ∷ b4 ∷ b5 ∷ bs) v b h = absurd (too_long b0 b1 b2 b3 b4 b5 v bs h)

-- The shape of an encoding: every byte but the last has the continuation bit.
abbrev pub Groups : List ℕ → Type 0
Groups [] = ⊥
Groups (b ∷ []) = b < 128
Groups (b ∷ c ∷ bs) = (128 ≤ b) × Groups (c ∷ bs)

pub encode-Groups :
    (v : ℕ) → v < 2 ^ 32 → Groups (encode_u32_varint v) × (length (encode_u32_varint v) ≤ 5)
encode-Groups v h = elim (dec_lt v 128) [
  | yes a ↦ rw (encode_1 v a) (omega arith)
  | no a ↦ elim (dec_lt v 16_384) [
    | yes b ↦ rw (encode_2 v (omega arith) b) (omega arith)
    | no b ↦ elim (dec_lt v 2_097_152) [
      | yes c ↦ rw (encode_3 v (omega arith) c) (omega arith)
      | no c ↦ elim (dec_lt v 268_435_456) [
        | yes d ↦ rw (encode_4 v (omega arith) d) (omega arith)
        | no d ↦ rw (encode_5 v (omega arith) (omega arith)) (omega arith)
      ]
    ]
  ]
]
