-- ===== src/Tokens/Verifier/Soundness.antt =====
-- crates/auth-tokens/src/verifier.rs: what an accepted token is.
use vpn_ne_vpn.Prelude.{ℕ, ◌≡◌, refl, sym, ap, ◌∙◌, Bool, Result, ok, err, Option, List, arith}
use vpn_ne_vpn.Prelude.Checks.{ok-injective, also_passed, then_passed}
use vpn_ne_vpn.Prelude.Maps.{string_eq}
use vpn_ne_vpn.Tokens.Error.{TokenError}
use vpn_ne_vpn.Tokens.Wire.{SignedTokenEnvelopeV1, CapabilityClaimsV1}
use vpn_ne_vpn.Tokens.Claims.{CapabilityClaims, VerificationRequest, VerifiedCapability}
use vpn_ne_vpn.Tokens.Codec.{DecodedToken, decode_token}
use vpn_ne_vpn.Tokens.Codec.RoundTrip.{decode_token-shape}
use vpn_ne_vpn.Tokens.Revocation.{RevocationSnapshot}
use vpn_ne_vpn.Tokens.Replay.{TokenStoreError, SessionLease, Store, reserve}
use vpn_ne_vpn.Tokens.Verifier.Acceptance.{
  IsShaped, IsAccepted, validate_shape-IsShaped, check_token-IsAccepted,
}
use vpn_ne_vpn.Tokens.Verifier.{
  LocalTokenVerifier, answer, reserve_for, check_token, reservation, authenticate, verify,
}

module _ (is_key : List ℕ → Bool) (verify_strict : List ℕ → List ℕ → List ℕ → Bool)
    (encode_envelope : SignedTokenEnvelopeV1 → List ℕ)
    (decode_envelope : List ℕ → Option SignedTokenEnvelopeV1)
    (encode_claims : CapabilityClaimsV1 → List ℕ)
    (decode_claims : List ℕ → Option CapabilityClaimsV1) (sha256 : List ℕ → List ℕ) where
  leased :
      (claims : CapabilityClaims) (capability : VerifiedCapability) (after : Store)
      (reserved : Store × Result TokenStoreError SessionLease)
      → answer is_key verify_strict encode_envelope decode_envelope encode_claims decode_claims
          sha256 claims reserved
        ≡ (after, ok capability)
      → (capability.policy ≡ claims.policy) × (reserved ≡ (after, ok capability.lease))
  leased claims capability after (s, ok lease) h = ground (arith, h)
  leased claims capability after (s, err e) h = absurd (cc (ap (λ x. x.1) h))

  reserve_for-ok :
      (request : VerificationRequest) (claims : Result TokenError CapabilityClaims)
      (store after : Store) (capability : VerifiedCapability)
      → reserve_for is_key verify_strict encode_envelope decode_envelope encode_claims decode_claims
          sha256 request claims store
        ≡ (after, ok capability)
      → (c : CapabilityClaims) × ((claims ≡ ok c)
          × ((capability.policy ≡ c.policy)
              × (reserve
                    (reservation is_key verify_strict encode_envelope decode_envelope encode_claims
                      decode_claims sha256 request c)
                    store
                  ≡ (after, ok capability.lease))))
  reserve_for-ok request (ok c) store after capability h =
      (c, (refl, leased c capability after _ h))
  reserve_for-ok request (err e) store after capability h = absurd (cc (ap (λ x. x.1) h))

  -- The claims that were authenticated are those of a decoded token that was accepted.
  pub authenticate-IsAccepted :
      (verifier : LocalTokenVerifier) (revocations : RevocationSnapshot)
      (request : VerificationRequest) (claims : CapabilityClaims)
      → authenticate is_key verify_strict encode_envelope decode_envelope encode_claims
          decode_claims sha256 verifier revocations request
        ≡ ok claims
      → (decoded : DecodedToken) × ((decode_token encode_envelope decode_envelope encode_claims
              decode_claims request.encoded_token
            ≡ ok decoded)
          × ((decoded.claims ≡ claims)
              × IsAccepted is_key verify_strict verifier revocations request decoded))
  unfolding authenticate
  authenticate-IsAccepted verifier revocations request claims h =
      let (decoded, (read, q)) =
        then_passed
          (decode_token encode_envelope decode_envelope encode_claims decode_claims
            request.encoded_token)
          _ h in
      let (checked, same) =
        also_passed (check_token is_key verify_strict verifier revocations request decoded) _ q in
      (
        decoded,
        (
          read,
          (
            ok-injective _ _ same,
            check_token-IsAccepted is_key verify_strict verifier revocations request decoded
                checked,
          ),
        ),
      )

  -- When a token is verified, its encoding was decoded; an issuer's known key that covers the token's
  -- window signed its claims; the request's time is in that window but for the clock skew at the
  -- start; it is not revoked; its policy is the profile of its plan for the required role; its region
  -- is allowed; its holder's proof is good where one is required or given with a key; and the lease
  -- is the one that the store gave for the token, this gateway and this challenge.
  pub verify_sound :
      (verifier : LocalTokenVerifier) (revocations : RevocationSnapshot)
      (request : VerificationRequest) (store after : Store) (capability : VerifiedCapability)
      → verify is_key verify_strict encode_envelope decode_envelope encode_claims decode_claims
          sha256 verifier revocations request store
        ≡ (after, ok capability)
      → (decoded : DecodedToken) × ((decode_token encode_envelope decode_envelope encode_claims
              decode_claims request.encoded_token
            ≡ ok decoded)
          × (IsAccepted is_key verify_strict verifier revocations request decoded
              × (IsShaped decoded.claims request.required_role
                  × ((capability.policy ≡ decoded.claims.policy)
                      × (reserve
                            (reservation is_key verify_strict encode_envelope decode_envelope
                              encode_claims decode_claims sha256 request decoded.claims)
                            store
                          ≡ (after, ok capability.lease))))))
  unfolding verify
  verify_sound verifier revocations request store after capability h =
      let (claims, (authentic, (policy, reserved))) =
        reserve_for-ok request
          (authenticate is_key verify_strict encode_envelope decode_envelope encode_claims
            decode_claims sha256 verifier revocations request)
          store after capability h in
      let (decoded, (read, (same, accepted))) =
        authenticate-IsAccepted verifier revocations request claims authentic in
      let shape =
        decode_token-shape encode_envelope decode_envelope encode_claims decode_claims _ decoded
          read in
      (
        decoded,
        (
          read,
          (
            accepted,
            (
              validate_shape-IsShaped decoded.claims request.required_role shape accepted.role,
              (
                policy ∙ ap (λ c. c.policy) (sym same),
                ap
                      (λ c.
                        reserve
                          (reservation is_key verify_strict encode_envelope decode_envelope
                            encode_claims decode_claims sha256 request c)
                          store)
                      same
                    ∙ reserved,
              ),
            ),
          ),
        ),
      )
