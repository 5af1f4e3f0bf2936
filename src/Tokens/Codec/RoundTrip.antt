-- ===== src/Tokens/Codec/RoundTrip.antt =====
-- crates/auth-tokens/src/codec.rs: what is encoded is decoded, and what is decoded encodes to the same
-- bytes.
use vpn_ne_vpn.Prelude.{
  ℕ, ◌≤◌, ◌<◌, ◌≡◌, refl, sym, ap, ◌∙◌, ◌==◌, ok, Option, some, none, List, [], ◌∷◌, length, arith,
  ==_iff, not, ok_or, ltb,
}
use vpn_ne_vpn.Prelude.Checks.{
  guard_passed, require_passed, also_passes, also_passed, then_passes, then_passed, unless_passes,
}
use vpn_ne_vpn.Prelude.Ints.{pos}
use vpn_ne_vpn.Prelude.Bytes.{same_bytes, same_bytes_refl, same_bytes_sound}
use vpn_ne_vpn.Tokens.Error.{invalid_encoding, input_too_large, unsupported_version}
use vpn_ne_vpn.Tokens.Policy.{
  PlanClass, GatewayRole, RegionSet, DeviceSlotClass, BandwidthClass, basic, plus, premium, entry,
  relay, exit, europe, americas, asia_pacific, global, single, personal, family, standard, fast,
  priority, plan_number, role_number, region_number, device_number, bandwidth_number,
}
use vpn_ne_vpn.Tokens.Claims.{
  CapabilityClaims, token_version_v1, max_token_bytes, signature_length, validate_shape,
}
use vpn_ne_vpn.Tokens.Wire.{SignedTokenEnvelopeV1, CapabilityClaimsV1}
use vpn_ne_vpn.Tokens.Codec.Inverse.{claims_to-from}
use vpn_ne_vpn.Tokens.Codec.{
  DecodedToken, plan_from_wire, role_from_wire, region_from_wire, device_from_wire,
  bandwidth_from_wire, roles_to_wire, roles_from_wire, claims_to_wire, claims_from_wire,
  pop_from_wire, envelope, encode_token, open_envelope, decode_token, to_array,
}

plan_from-to : (x : PlanClass) → plan_from_wire (pos (plan_number x)) ≡ ok x
plan_from-to basic = refl
plan_from-to plus = refl
plan_from-to premium = refl

role_from-to : (x : GatewayRole) → role_from_wire (pos (role_number x)) ≡ ok x
role_from-to entry = refl
role_from-to relay = refl
role_from-to exit = refl

region_from-to : (x : RegionSet) → region_from_wire (pos (region_number x)) ≡ ok x
region_from-to europe = refl
region_from-to americas = refl
region_from-to asia_pacific = refl
region_from-to global = refl

device_from-to : (x : DeviceSlotClass) → device_from_wire (pos (device_number x)) ≡ ok x
device_from-to single = refl
device_from-to personal = refl
device_from-to family = refl

bandwidth_from-to : (x : BandwidthClass) → bandwidth_from_wire (pos (bandwidth_number x)) ≡ ok x
bandwidth_from-to standard = refl
bandwidth_from-to fast = refl
bandwidth_from-to priority = refl

roles_from-to : (xs : List GatewayRole) → roles_from_wire (roles_to_wire xs) ≡ ok xs
roles_from-to [] = refl
roles_from-to (x ∷ xs) = rw (role_from-to x, roles_from-to xs)

-- The lengths and ranges that the types of the code fix.
abbrev pub HasLength : ℕ → Option (List ℕ) → Type 0
HasLength n none = Unit {0}
HasLength n (some xs) = length xs ≡ n

pub record IsTyped (c : CapabilityClaims) : Type 0 where
  pub id : length c.token_id ≡ 32
  pub proof_key : HasLength 32 c.proof_of_possession_public_key
  pub version : c.token_version < 65536
  pub sessions : c.policy.connection_limits.max_active_sessions < 65536
  pub streams : c.policy.connection_limits.max_concurrent_streams < 65536
  pub per_minute : c.policy.connection_limits.new_connections_per_minute < 65536

pop_from_wire-some : (key : Option (List ℕ)) → HasLength 32 key → pop_from_wire key ≡ ok key
pop_from_wire-some none h = refl
pop_from_wire-some (some key) h = ground (arith, h)

to_array-length : (n : ℕ) (xs : List ℕ) → length xs ≡ n → to_array n xs ≡ ok xs
to_array-length n xs h = ground (arith, h)

claims_from-to : (c : CapabilityClaims) → IsTyped c → claims_from_wire (claims_to_wire c) ≡ ok c
unfolding claims_from_wire claims_to_wire
claims_from-to c t = ground (
  arith,
  t.id,
  t.version,
  t.sessions,
  t.streams,
  t.per_minute,
  roles_from-to c.policy.allowed_gateway_roles,
  pop_from_wire-some c.proof_of_possession_public_key t.proof_key,
  plan_from-to c.policy.plan_class,
  region_from-to c.policy.region_set,
  device_from-to c.policy.device_slot_class,
  bandwidth_from-to c.policy.bandwidth_class,
)

module _ (encode_envelope : SignedTokenEnvelopeV1 → List ℕ)
    (decode_envelope : List ℕ → Option SignedTokenEnvelopeV1)
    (encode_claims : CapabilityClaimsV1 → List ℕ)
    (decode_claims : List ℕ → Option CapabilityClaimsV1) where
  encode_token-checks :
      (c : CapabilityClaims) (signature encoded : List ℕ)
      → encode_token encode_envelope decode_envelope encode_claims decode_claims c signature
        ≡ ok encoded
      → (validate_shape c ≡ ok tt)
        × ((length encoded ≤ max_token_bytes)
            × (encode_envelope (envelope (encode_claims (claims_to_wire c)) signature) ≡ encoded))
  unfolding encode_token
  encode_token-checks c signature encoded h =
      let p = also_passed (validate_shape c) _ h in (p.0, ground (arith, p.1))

  open_envelope-encoded :
      (c : CapabilityClaims) (signature : List ℕ)
      → decode_claims (encode_claims (claims_to_wire c)) ≡ some (claims_to_wire c)
      → length (encode_claims (claims_to_wire c)) ≤ max_token_bytes
      → IsTyped c
      → length signature ≡ 64
      → validate_shape c ≡ ok tt
      → open_envelope encode_envelope decode_envelope encode_claims decode_claims
          (envelope (encode_claims (claims_to_wire c)) signature)
        ≡ ok (record {
          claims = c;
          claims_bytes = encode_claims (claims_to_wire c);
          signature = signature;
        })
  unfolding open_envelope
  open_envelope-encoded c signature dc le t s v =
      let w = claims_to_wire c in
      also_passes (unless_passes _ (ground (arith, le))) (
        then_passes _ (ap (λ o. ok_or o invalid_encoding) dc) (
          also_passes (unless_passes _ (ap not (same_bytes_refl (encode_claims w)))) (
            then_passes _ (claims_from-to c t)
              (also_passes v (then_passes _ (to_array-length signature_length signature s) refl)))))

  -- Where the protobuf library decodes the token's two messages to what it encoded, the one in the other
  -- no longer than it, a token that was encoded is decoded to its claims, their bytes and its signature.
  pub decode_token-encode_token :
      (c : CapabilityClaims) (signature encoded : List ℕ)
      → decode_envelope (encode_envelope (envelope (encode_claims (claims_to_wire c)) signature))
        ≡ some (envelope (encode_claims (claims_to_wire c)) signature)
      → decode_claims (encode_claims (claims_to_wire c)) ≡ some (claims_to_wire c)
      → length (encode_claims (claims_to_wire c))
        ≤ length (encode_envelope (envelope (encode_claims (claims_to_wire c)) signature))
      → IsTyped c
      → length signature ≡ 64
      → encode_token encode_envelope decode_envelope encode_claims decode_claims c signature
        ≡ ok encoded
      → decode_token encode_envelope decode_envelope encode_claims decode_claims encoded
        ≡ ok (record {
          claims = c;
          claims_bytes = encode_claims (claims_to_wire c);
          signature = signature;
        })
  unfolding decode_token
  decode_token-encode_token c signature encoded de dc le t s h =
      let e = envelope (encode_claims (claims_to_wire c)) signature in
      let (v, (small, is_encoded)) = encode_token-checks c signature encoded h in
      let fits : length e.claims ≤ max_token_bytes =
        ground (arith, small, le, ap length is_encoded) in
      also_passes (unless_passes _ (ground (arith, small))) (
        then_passes _
          (ap (λ o. ok_or o invalid_encoding) (ap decode_envelope (sym is_encoded) ∙ de))
          (also_passes (unless_passes unsupported_version refl) (
            also_passes
              (unless_passes _ (
                ap (λ x. not (same_bytes x encoded)) is_encoded ∙ ap not (same_bytes_refl encoded)))
              (open_envelope-encoded c signature dc fits t s v))))

  -- What an accepted envelope holds.
  pub open_envelope-parts :
      (e : SignedTokenEnvelopeV1) (t : DecodedToken)
      → open_envelope encode_envelope decode_envelope encode_claims decode_claims e ≡ ok t
      → ((t.claims_bytes ≡ e.claims) × (encode_claims (claims_to_wire t.claims) ≡ e.claims))
        × ((t.signature ≡ e.signature) × (validate_shape t.claims ≡ ok tt))
  unfolding open_envelope
  open_envelope-parts e t h =
      let (_, opened) = guard_passed (ltb max_token_bytes (length e.claims)) input_too_large _ h in
      let (w, (_, q)) = then_passed (ok_or (decode_claims e.claims) invalid_encoding) _ opened in
      let (same, read) =
        require_passed (same_bytes (encode_claims w) e.claims) invalid_encoding _ q in
      let (c, (from, checked)) = then_passed (claims_from_wire w) _ read in
      let (shape, built) = also_passed (validate_shape c) _ checked in
      let again : encode_claims (claims_to_wire c) ≡ e.claims =
        ap encode_claims (claims_to-from w c from) ∙ same_bytes_sound _ _ same in
      ground (arith, shape, built, again)

  pub decode_token-parts :
      (encoded : List ℕ) (t : DecodedToken)
      → decode_token encode_envelope decode_envelope encode_claims decode_claims encoded ≡ ok t
      → (length encoded ≤ max_token_bytes)
        × (e : SignedTokenEnvelopeV1) × ((e.token_version ≡ token_version_v1)
            × ((encode_envelope e ≡ encoded)
                × (open_envelope encode_envelope decode_envelope encode_claims decode_claims e
                    ≡ ok t)))
  unfolding decode_token
  decode_token-parts encoded t h =
      let (small, decoded) =
        guard_passed (ltb max_token_bytes (length encoded)) input_too_large _ h in
      let (e, (_, q)) = then_passed (ok_or (decode_envelope encoded) invalid_encoding) _ decoded in
      let (v, r) = require_passed (e.token_version == token_version_v1) unsupported_version _ q in
      let (same, opened) =
        require_passed (same_bytes (encode_envelope e) encoded) invalid_encoding _ r in
      (ground (arith, small), e, ((==_iff _ _).0 v, (same_bytes_sound _ _ same, opened)))

  -- An encoding that is accepted is the one that `encode_token` makes of the claims and the signature
  -- that were read from it, whatever the encoders and decoders of the protobuf library are.
  pub encode_token-decode_token :
      (encoded : List ℕ) (t : DecodedToken)
      → decode_token encode_envelope decode_envelope encode_claims decode_claims encoded ≡ ok t
      → encode_token encode_envelope decode_envelope encode_claims decode_claims t.claims
          t.signature
        ≡ ok encoded
  unfolding encode_token
  encode_token-decode_token encoded t h =
      let (small, e, (version, (is_encoded, opened))) = decode_token-parts encoded t h in
      let ((_, claims), (s, shape)) = open_envelope-parts e t opened in
      let same : encode_envelope (envelope (encode_claims (claims_to_wire t.claims)) t.signature)
          ≡ encoded =
        ap encode_envelope (cc (version, claims, s)) ∙ is_encoded in
      also_passes shape (ground (arith, small, same))

  -- A decoded token passed the check of its shape.
  pub decode_token-shape :
      (encoded : List ℕ) (t : DecodedToken)
      → decode_token encode_envelope decode_envelope encode_claims decode_claims encoded ≡ ok t
      → validate_shape t.claims ≡ ok tt
  decode_token-shape encoded t h =
      let (_, e, (_, (_, opened))) = decode_token-parts encoded t h in
      (open_envelope-parts e t opened).1.1
