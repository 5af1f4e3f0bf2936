-- ===== src/Tokens/Verifier/Once.antt =====
-- crates/auth-tokens/src/verifier.rs and crates/auth-tokens/src/replay.rs: a token is accepted once for a
-- gateway and a challenge.
use vpn_ne_vpn.Prelude.{
  ℕ, ◌<◌, ◌≡◌, sym, ap, ◌∙◌, subst, Bool, false, ok, err, is_ok, Option, some, List, arith, inl,
  inr, Result-cases,
}
use vpn_ne_vpn.Prelude.Checks.{ok-injective}
use vpn_ne_vpn.Prelude.Bytes.{number}
use vpn_ne_vpn.Tokens.Error.{TokenError}
use vpn_ne_vpn.Prelude.Maps.{lookup, nat_eq}
use vpn_ne_vpn.Tokens.Wire.{SignedTokenEnvelopeV1, CapabilityClaimsV1}
use vpn_ne_vpn.Tokens.Claims.{CapabilityClaims, VerificationRequest, VerifiedCapability}
use vpn_ne_vpn.Tokens.Codec.{decode_token}
use vpn_ne_vpn.Tokens.Revocation.{RevocationSnapshot}
use vpn_ne_vpn.Tokens.Replay.{
  TokenReservation, TokenSessions, SessionLease, Store, already_reserved, reserve,
}
use vpn_ne_vpn.Tokens.Replay.Refusal.{Op, AllKeep, run, replay_refused}
use vpn_ne_vpn.Tokens.Verifier.{LocalTokenVerifier, reservation, authenticate, verify}
use vpn_ne_vpn.Tokens.Verifier.Soundness.{authenticate-IsAccepted, verify_sound}

reserve-token_id :
    (r : TokenReservation) (m after : Store) (lease : SessionLease)
    → reserve r m ≡ (after, ok lease)
    → (lease.token_id ≡ r.token_id) × (lease.session_id ≡ r.session_id)
unfolding reserve
reserve-token_id r m after lease h = ground (arith, h)

module _ (is_key : List ℕ → Bool) (verify_strict : List ℕ → List ℕ → List ℕ → Bool)
    (encode_envelope : SignedTokenEnvelopeV1 → List ℕ)
    (decode_envelope : List ℕ → Option SignedTokenEnvelopeV1)
    (encode_claims : CapabilityClaimsV1 → List ℕ)
    (decode_claims : List ℕ → Option CapabilityClaimsV1) (sha256 : List ℕ → List ℕ) where
  refused :
      (verifier : LocalTokenVerifier) (revocations : RevocationSnapshot)
      (request : VerificationRequest) (claims : CapabilityClaims) (store : Store)
      → authenticate is_key verify_strict encode_envelope decode_envelope encode_claims
          decode_claims sha256 verifier revocations request
        ≡ ok claims
      → (reserve
          (reservation is_key verify_strict encode_envelope decode_envelope encode_claims
            decode_claims sha256 request claims)
          store).1
        ≡ err already_reserved
      → is_ok
          (verify is_key verify_strict encode_envelope decode_envelope encode_claims decode_claims
            sha256 verifier revocations request store).1
        ≡ false
  unfolding verify
  refused verifier revocations request claims store a h = rw (a, h)

  unauthentic :
      (verifier : LocalTokenVerifier) (revocations : RevocationSnapshot)
      (request : VerificationRequest) (store : Store) (e : TokenError)
      → authenticate is_key verify_strict encode_envelope decode_envelope encode_claims
          decode_claims sha256 verifier revocations request
        ≡ err e
      → is_ok
          (verify is_key verify_strict encode_envelope decode_envelope encode_claims decode_claims
            sha256 verifier revocations request store).1
        ≡ false
  unfolding verify
  unauthentic verifier revocations request store e a = rw a

  reserve_again :
      (request again : VerificationRequest) (claims same : CapabilityClaims) (store after : Store)
      (lease : SessionLease) (s : TokenSessions) (os : List Op)
      → reserve
          (reservation is_key verify_strict encode_envelope decode_envelope encode_claims
            decode_claims sha256 request claims)
          store
        ≡ (after, ok lease)
      → lookup lease.token_id after ≡ some s
      → AllKeep lease.token_id lease.session_id s.expires_at os
      → same ≡ claims
      → again.gateway_binding ≡ request.gateway_binding
      → again.challenge ≡ request.challenge
      → again.now < s.expires_at
      → (reserve
          (reservation is_key verify_strict encode_envelope decode_envelope encode_claims
            decode_claims sha256 again same)
          (run after os)).1
        ≡ err already_reserved
  reserve_again request again claims same store after lease s os h l k e binding challenge before =
      let r =
        reservation is_key verify_strict encode_envelope decode_envelope encode_claims decode_claims
          sha256 request claims in
      let (token, session) = reserve-token_id r store after lease h in
      let left = ap (λ p. p.0) h in
      subst
        (λ m.
          (reserve
            (reservation is_key verify_strict encode_envelope decode_envelope encode_claims
              decode_claims sha256 again same)
            (run m os)).1
          ≡ err already_reserved)
        left
        (replay_refused r
          (reservation is_key verify_strict encode_envelope decode_envelope encode_claims
            decode_claims sha256 again same)
          store lease s os (ap (λ p. p.1) h)
          (ap (lookup r.token_id) left ∙ ap (λ t. lookup t after) (sym token) ∙ l)
          (subst (λ t. AllKeep t r.session_id s.expires_at os) token
            (subst (λ x. AllKeep lease.token_id x s.expires_at os) session k))
          (ap (λ c. number c.token_id) e) (cc (e, binding, challenge)) before)

  -- A token that was accepted for a gateway and a challenge is not accepted for them again, by any
  -- verifier on the same store and with any revocations, before the expiry that the store then has for
  -- the token, whatever is reserved and released in between, if its session is not released and no
  -- reservation in between is late or shortens the life of the token.
  pub verify_once :
      (verifier later : LocalTokenVerifier) (revocations newer : RevocationSnapshot)
      (request again : VerificationRequest) (store after : Store) (capability : VerifiedCapability)
      (s : TokenSessions) (os : List Op)
      → verify is_key verify_strict encode_envelope decode_envelope encode_claims decode_claims
          sha256 verifier revocations request store
        ≡ (after, ok capability)
      → lookup capability.lease.token_id after ≡ some s
      → AllKeep capability.lease.token_id capability.lease.session_id s.expires_at os
      → again.encoded_token ≡ request.encoded_token
      → again.gateway_binding ≡ request.gateway_binding
      → again.challenge ≡ request.challenge
      → again.now < s.expires_at
      → is_ok
          (verify is_key verify_strict encode_envelope decode_envelope encode_claims decode_claims
            sha256 later newer again
            (run after os)).1
        ≡ false
  verify_once verifier later revocations newer request again store after capability s os h l k same
        binding challenge before =
      elim (Result-cases (
        authenticate is_key verify_strict encode_envelope decode_envelope encode_claims
          decode_claims sha256 later newer again)) [
            | inl (e, a) ↦ unauthentic later newer again (run after os) e a
            | inr (claims, a) ↦
                let (first, (read, (_, (_, (_, reserved))))) =
                  verify_sound is_key verify_strict encode_envelope decode_envelope encode_claims
                    decode_claims sha256 verifier revocations request store after capability h in
                let (second, (read_again, (is_claims, _))) =
                  authenticate-IsAccepted is_key verify_strict encode_envelope decode_envelope
                    encode_claims decode_claims sha256 later newer again claims a in
                let equal = ok-injective _ _ (
                  sym read_again
                  ∙ ap (decode_token encode_envelope decode_envelope encode_claims decode_claims)
                      same
                  ∙ read) in
                refused later newer again claims (run after os) a (
                  reserve_again request again first.claims claims store after capability.lease s os
                    reserved l k (sym is_claims ∙ ap (λ d. d.claims) equal) binding challenge
                    before)
          ]
