-- ===== src/Tokens/Verifier/Completeness.antt =====
-- crates/auth-tokens/src/issuer.rs and crates/auth-tokens/src/verifier.rs: what the issuer issues is
-- what the verifier accepts.
use vpn_ne_vpn.Prelude.{
  ℕ, ◌≤◌, ◌≡◌, refl, sym, ap, ◌∙◌, Bool, true, false, not, ◌||◌, ok, ok_or, Option, some, List,
  length,
}
use vpn_ne_vpn.Prelude.Ints.{pos, is_less}
use vpn_ne_vpn.Prelude.Bytes.{number}
use vpn_ne_vpn.Prelude.Checks.{
  also_passed, also_passes, then_passed, then_passes, unless_passes, guard_passed, ok-injective,
}
use vpn_ne_vpn.Prelude.Maps.{lookup, string_eq}
use vpn_ne_vpn.Tokens.Error.{
  issuer_key_outside_validity, unknown_issuer_key, invalid_signature, not_yet_valid, expired,
  role_not_allowed, region_not_allowed,
}
use vpn_ne_vpn.Tokens.Policy.{role_allowed, allows, validate_canonical, validate_window}
use vpn_ne_vpn.Tokens.Wire.{SignedTokenEnvelopeV1, CapabilityClaimsV1}
use vpn_ne_vpn.Tokens.Claims.{
  CapabilityClaims, IssueTokenRequest, IssuedToken, VerificationRequest,
  proof_of_possession_message, validate_shape,
}
use vpn_ne_vpn.Tokens.Codec.{
  DecodedToken, claims_to_wire, claims_signing_bytes, encode_token, decode_token,
}
use vpn_ne_vpn.Tokens.Codec.{envelope}
use vpn_ne_vpn.Tokens.Codec.RoundTrip.{IsTyped, decode_token-encode_token}
use vpn_ne_vpn.Tokens.Revocation.{RevocationSnapshot, active, status}
use vpn_ne_vpn.Tokens.Issuer.{LocalEd25519TokenIssuer, public_key, claims_of, check_request, issue}
use vpn_ne_vpn.Tokens.Verifier.{
  LocalTokenVerifier, add_skew, check_status, check_proof, check_token, authenticate,
}

-- The key that the issuer publishes checks what it signs.
pub record IsScheme (is_key : List ℕ → Bool) (verify_strict : List ℕ → List ℕ → List ℕ → Bool)
    (verifying_key : List ℕ → List ℕ) (sign : List ℕ → List ℕ → List ℕ) : Type 0 where
  pub published : (k : List ℕ) → is_key (verifying_key k) ≡ true
  pub checks :
      (k message : List ℕ) → verify_strict (verifying_key k) message (sign k message) ≡ true
  pub size : (k message : List ℕ) → length (sign k message) ≡ 64

-- The encodings of the claims and of their envelope are decoded to these, and the one in the other is
-- no longer than it.
pub record IsCoded (encode_envelope : SignedTokenEnvelopeV1 → List ℕ)
    (decode_envelope : List ℕ → Option SignedTokenEnvelopeV1)
    (encode_claims : CapabilityClaimsV1 → List ℕ)
    (decode_claims : List ℕ → Option CapabilityClaimsV1) (w : CapabilityClaimsV1)
    (signature : List ℕ) : Type 0 where
  pub envelopes :
      decode_envelope (encode_envelope (envelope (encode_claims w) signature))
      ≡ some (envelope (encode_claims w) signature)
  pub claims : decode_claims (encode_claims w) ≡ some w
  pub nested :
      length (encode_claims w) ≤ length (encode_envelope (envelope (encode_claims w) signature))

module _ (is_key : List ℕ → Bool) (verify_strict : List ℕ → List ℕ → List ℕ → Bool)
    (verifying_key : List ℕ → List ℕ) (sign : List ℕ → List ℕ → List ℕ)
    (encode_envelope : SignedTokenEnvelopeV1 → List ℕ)
    (decode_envelope : List ℕ → Option SignedTokenEnvelopeV1)
    (encode_claims : CapabilityClaimsV1 → List ℕ)
    (decode_claims : List ℕ → Option CapabilityClaimsV1) (sha256 : List ℕ → List ℕ) where
  -- The request's time, place and role fit the claims, which are not revoked, and its proof is good.
  pub record IsWelcome (verifier : LocalTokenVerifier) (revocations : RevocationSnapshot)
      (request : VerificationRequest) (claims : CapabilityClaims) : Type 0 where
    pub started :
        is_less (add_skew request.now verifier.config.maximum_clock_skew_seconds) claims.not_before
        ≡ false
    pub live : is_less (pos request.now) claims.expires_at ≡ true
    pub not_revoked :
        status revocations claims.issuer_key_id (number claims.token_id) request.now ≡ active
    pub role : role_allowed claims.policy request.required_role ≡ true
    pub region : allows claims.policy.region_set request.gateway_region ≡ true
    pub proved :
        check_proof is_key verify_strict verifier.config.require_proof_of_possession
          claims.proof_of_possession_public_key request.proof_of_possession
          (proof_of_possession_message claims.token_id request.gateway_binding request.challenge)
        ≡ ok tt

  claims_signing_bytes-encoded :
      (c : CapabilityClaims) (signing_bytes : List ℕ)
      → claims_signing_bytes encode_envelope decode_envelope encode_claims decode_claims c
        ≡ ok signing_bytes
      → signing_bytes ≡ encode_claims (claims_to_wire c)
  unfolding claims_signing_bytes
  claims_signing_bytes-encoded c signing_bytes h =
      sym (ok-injective _ _ (also_passed (validate_shape c) _ h).1)

  -- What an issued token is.
  issue-parts :
      (issuer : LocalEd25519TokenIssuer) (asked : IssueTokenRequest) (token_id : List ℕ)
      (token : IssuedToken)
      → issue verifying_key sign is_key encode_envelope decode_envelope encode_claims decode_claims
          issuer asked
          (some token_id)
        ≡ ok token
      → ((is_less asked.not_before issuer.key_not_before
            || is_less issuer.key_not_after asked.expires_at)
          ≡ false)
        × (encode_token encode_envelope decode_envelope encode_claims decode_claims
              (claims_of verifying_key sign is_key issuer asked token_id)
              (sign issuer.signing_key (
                encode_claims
                  (claims_to_wire (claims_of verifying_key sign is_key issuer asked token_id))))
            ≡ ok token.encoded)
  unfolding issue
  issue-parts issuer asked token_id token h =
      let c = claims_of verifying_key sign is_key issuer asked token_id in
      let (checked, p) = also_passed (check_request verifying_key sign is_key issuer asked) _ h in
      let (_, q) = also_passed (validate_canonical asked.policy) _ checked in
      let (_, r) = also_passed (validate_window asked.not_before asked.expires_at) _ q in
      let (covers, _) =
        guard_passed
          (is_less asked.not_before issuer.key_not_before
            || is_less issuer.key_not_after asked.expires_at)
          issuer_key_outside_validity _ r in
      let (signing_bytes, (signed, encodes)) =
        then_passed
          (claims_signing_bytes encode_envelope decode_envelope encode_claims decode_claims c) _
          p in
      let bytes = claims_signing_bytes-encoded c signing_bytes signed in
      let (encoded, (e, built)) =
        then_passed
          (encode_token encode_envelope decode_envelope encode_claims decode_claims c
            (sign issuer.signing_key signing_bytes))
          _ encodes in
      (
        covers,
        ap
              (λ b.
                encode_token encode_envelope decode_envelope encode_claims decode_claims c
                  (sign issuer.signing_key b))
              (sym bytes)
            ∙ e
            ∙ ap ok (ap (λ t. t.encoded) (ok-injective _ _ built)),
      )

  check_token-issued :
      (issuer : LocalEd25519TokenIssuer) (asked : IssueTokenRequest) (token_id : List ℕ)
      (verifier : LocalTokenVerifier) (revocations : RevocationSnapshot)
      (request : VerificationRequest) (decoded : DecodedToken)
      → IsScheme is_key verify_strict verifying_key sign
      → decoded.claims ≡ claims_of verifying_key sign is_key issuer asked token_id
      → decoded.signature ≡ sign issuer.signing_key decoded.claims_bytes
      → (is_less asked.not_before issuer.key_not_before
          || is_less issuer.key_not_after asked.expires_at)
        ≡ false
      → lookup issuer.key_id verifier.keys ≡ some (public_key verifying_key sign is_key issuer)
      → IsWelcome verifier revocations request decoded.claims
      → check_token is_key verify_strict verifier revocations request decoded ≡ ok tt
  unfolding check_token
  check_token-issued issuer asked token_id verifier revocations request decoded scheme same
        signature covers known w =
      let c = decoded.claims in
      also_passes
        (also_passes (unless_passes not_yet_valid w.started)
          (unless_passes expired (ap not w.live)))
        (also_passes
          (then_passes _
            (ap (λ o. ok_or o unknown_issuer_key)
              (ap (λ x. lookup x.issuer_key_id verifier.keys) same ∙ known))
            (also_passes
              (unless_passes issuer_key_outside_validity (
                ap
                  (λ x.
                    is_less x.not_before issuer.key_not_before
                    || is_less issuer.key_not_after x.expires_at)
                  same
                ∙ covers))
              (also_passes
                (unless_passes invalid_signature (ap not (scheme.published issuer.signing_key)))
                (unless_passes invalid_signature (
                  ap
                    (λ x.
                      not (verify_strict (verifying_key issuer.signing_key) decoded.claims_bytes x))
                    signature
                  ∙ ap not (scheme.checks issuer.signing_key decoded.claims_bytes))))))
          (also_passes (ap check_status w.not_revoked) (
            also_passes
              (also_passes (unless_passes role_not_allowed (ap not w.role))
                (unless_passes region_not_allowed (ap not w.region)))
              w.proved)))

  -- A token that the issuer issued is authenticated with its claims by a verifier that knows the
  -- issuer's published key, where the request comes in the token's window and after no revocation, asks
  -- for what the token allows and has a good proof. The signature scheme is sound, the
  -- protobuf library decodes the token's messages to what it encoded, and the claims have the sizes that the types of the code fix.
  pub issue-authenticate :
      (issuer : LocalEd25519TokenIssuer) (asked : IssueTokenRequest) (token_id : List ℕ)
      (token : IssuedToken) (verifier : LocalTokenVerifier) (revocations : RevocationSnapshot)
      (request : VerificationRequest)
      → IsScheme is_key verify_strict verifying_key sign
      → IsCoded encode_envelope decode_envelope encode_claims decode_claims
          (claims_to_wire (claims_of verifying_key sign is_key issuer asked token_id))
          (sign issuer.signing_key (
            encode_claims
              (claims_to_wire (claims_of verifying_key sign is_key issuer asked token_id))))
      → IsTyped (claims_of verifying_key sign is_key issuer asked token_id)
      → issue verifying_key sign is_key encode_envelope decode_envelope encode_claims decode_claims
          issuer asked
          (some token_id)
        ≡ ok token
      → request.encoded_token ≡ token.encoded
      → lookup issuer.key_id verifier.keys ≡ some (public_key verifying_key sign is_key issuer)
      → IsWelcome verifier revocations request
          (claims_of verifying_key sign is_key issuer asked token_id)
      → authenticate is_key verify_strict encode_envelope decode_envelope encode_claims
          decode_claims sha256 verifier revocations request
        ≡ ok (claims_of verifying_key sign is_key issuer asked token_id)
  unfolding authenticate
  issue-authenticate issuer asked token_id token verifier revocations request scheme coder typed h
        sent known w =
      let c = claims_of verifying_key sign is_key issuer asked token_id in
      let signature = sign issuer.signing_key (encode_claims (claims_to_wire c)) in
      let (covers, encoded) = issue-parts issuer asked token_id token h in
      let read =
        decode_token-encode_token encode_envelope decode_envelope encode_claims decode_claims c
          signature token.encoded coder.envelopes coder.claims coder.nested typed
          (scheme.size issuer.signing_key (encode_claims (claims_to_wire c))) encoded in
      then_passes _
        (ap (decode_token encode_envelope decode_envelope encode_claims decode_claims) sent ∙ read)
        (also_passes
          (check_token-issued issuer asked token_id verifier revocations request
            (record {
              claims = c;
              claims_bytes = encode_claims (claims_to_wire c);
              signature = signature;
            })
            scheme refl refl covers known w)
          refl)
