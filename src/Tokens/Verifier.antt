-- ===== src/Tokens/Verifier.antt =====
-- crates/auth-tokens/src/verifier.rs: the offline check of a token and the reservation of its session.
-- The protobuf library's coders, the signature scheme's two checks and the hash are parameters.
pub mod Acceptance
pub mod Soundness
pub mod Completeness
pub mod Once
use vpn_ne_vpn.Prelude.{
  ℕ, ◌+◌, min, Bool, true, false, not, ◌||◌, if◌then◌else◌, ltb, ◌==◌, Result, ok, err, ok_or,
  and_then, Option, some, none, List, [], ◌∷◌, ◌++◌, length, String, ◌also◌, Method,
}
use vpn_ne_vpn.Prelude.Ints.{ℤ, pos, negsuc, is_less, is_negative, difference, i64_max}
use vpn_ne_vpn.Prelude.Bytes.{number}
use vpn_ne_vpn.Prelude.Maps.{Map, lookup, insert, contains_key, string_eq}
use vpn_ne_vpn.Prelude.Texts.{is_empty}
use vpn_ne_vpn.Tokens.Error.{
  TokenError, invalid_time_window, invalid_key_id, not_yet_valid, expired, unknown_issuer_key,
  issuer_key_outside_validity, invalid_signature, revocation_data_stale, role_not_allowed,
  region_not_allowed, invalid_proof_of_possession, proof_of_possession_required, replay_detected,
  connection_limit_reached, replay_protection_unavailable,
}
use vpn_ne_vpn.Tokens.Error as Error
use vpn_ne_vpn.Tokens.Policy.{role_allowed, allows}
use vpn_ne_vpn.Tokens.Wire.{SignedTokenEnvelopeV1, CapabilityClaimsV1}
use vpn_ne_vpn.Tokens.Claims.{
  CapabilityClaims, IssuerPublicKey, VerificationRequest, VerifiedCapability, signature_length,
  proof_of_possession_message,
}
use vpn_ne_vpn.Tokens.Codec.{DecodedToken, decode_token}
use vpn_ne_vpn.Tokens.Revocation.{
  RevocationStatus, RevocationSnapshot, active, revoked, snapshot_stale, status,
}
use vpn_ne_vpn.Tokens.Replay.{
  TokenStoreError, TokenReservation, SessionLease, Store, already_reserved, limit_reached,
  unavailable, reserve, release,
}

pub record VerifierConfig : Type 0 where
  pub require_proof_of_possession : Bool
  pub maximum_clock_skew_seconds : ℤ

abbrev pub default_config : VerifierConfig
default_config = record { require_proof_of_possession = true; maximum_clock_skew_seconds = pos 30 }

-- The store and the revocations are arguments of its methods.
pub record LocalTokenVerifier : Type 0 where
  pub keys : Map String IssuerPublicKey
  pub config : VerifierConfig

abbrev pub add_keys :
    Map String IssuerPublicKey
    → List IssuerPublicKey
    → Result TokenError (Map String IssuerPublicKey)
add_keys key_map [] = ok key_map
add_keys key_map (key ∷ keys) =
    (if is_empty key.key_id || contains_key key.key_id key_map then err invalid_key_id else ok tt)
    also add_keys (insert key.key_id key key_map) keys

unfoldable pub new : List IssuerPublicKey → VerifierConfig → Result TokenError LocalTokenVerifier
new keys config =
    (if is_negative config.maximum_clock_skew_seconds
        || is_less (pos 120) config.maximum_clock_skew_seconds
      then err invalid_time_window
      else ok tt)
    also and_then (add_keys [] keys) λ key_map. ok (record { keys = key_map; config = config })

abbrev pub map_store_error : TokenStoreError → TokenError
map_store_error already_reserved = replay_detected
map_store_error limit_reached = connection_limit_reached
map_store_error unavailable = replay_protection_unavailable

abbrev pub map_store_err : {A : Type 0} → Result TokenStoreError A → Result TokenError A
map_store_err (ok a) = ok a
map_store_err (err e) = err (map_store_error e)

-- `i64::saturating_add` of a time and the skew.
abbrev pub add_skew : ℕ → ℤ → ℤ
add_skew now (pos n) = pos (min (now + n) i64_max)
add_skew now (negsuc n) = difference now (n + 1)

-- A time that is not negative, as the checked window of a token's claims starts at 0 or later.
abbrev pub seconds : ℤ → ℕ
seconds (pos n) = n
seconds (negsuc n) = 0

abbrev pub check_status : RevocationStatus → Result TokenError (Unit {0})
check_status active = ok tt
check_status revoked = err Error.revoked
check_status snapshot_stale = err revocation_data_stale

-- `b"onionroute-session-lease-v1\0"`
abbrev pub lease_domain : List ℕ
lease_domain =
    111 ∷ 110 ∷ 105 ∷ 111 ∷ 110 ∷ 114 ∷ 111 ∷ 117 ∷ 116 ∷ 101 ∷ 45 ∷ 115 ∷ 101 ∷ 115 ∷ 115 ∷ 105
    ∷ 111 ∷ 110 ∷ 45 ∷ 108 ∷ 101 ∷ 97 ∷ 115 ∷ 101 ∷ 45 ∷ 118 ∷ 49 ∷ 0 ∷ []

-- The activation may be early by the clock skew; the expiry is strict.
abbrev pub check_time : VerifierConfig → ℕ → CapabilityClaims → Result TokenError (Unit {0})
check_time config now claims =
    (if is_less (add_skew now config.maximum_clock_skew_seconds) claims.not_before
      then err not_yet_valid
      else ok tt)
    also (if not (is_less (pos now) claims.expires_at) then err expired else ok tt)

abbrev pub check_scope : VerificationRequest → CapabilityClaims → Result TokenError (Unit {0})
check_scope request claims =
    (if not (role_allowed claims.policy request.required_role) then err role_not_allowed else ok tt)
    also (if not (allows claims.policy.region_set request.gateway_region)
        then err region_not_allowed
        else ok tt)

unfoldable pub release_capability : VerifiedCapability → Store → Store
unfolding release
release_capability capability store = release capability.lease store

module _ (is_key : List ℕ → Bool) (verify_strict : List ℕ → List ℕ → List ℕ → Bool) where
  abbrev pub check_issuer : Map String IssuerPublicKey → DecodedToken → Result TokenError (Unit {0})
  check_issuer keys decoded =
      let claims = decoded.claims in
      and_then (ok_or (lookup claims.issuer_key_id keys) unknown_issuer_key) λ key.
        (if is_less claims.not_before key.not_before || is_less key.not_after claims.expires_at
          then err issuer_key_outside_validity
          else ok tt)
        also (if not (is_key key.public_key) then err invalid_signature else ok tt)
        also (if not (verify_strict key.public_key decoded.claims_bytes decoded.signature)
            then err invalid_signature
            else ok tt)

  abbrev pub check_proof :
      Bool → Option (List ℕ) → Option (List ℕ) → List ℕ → Result TokenError (Unit {0})
  check_proof required (some public_key) (some proof) message =
      (if not (length proof == signature_length) then err invalid_proof_of_possession else ok tt)
      also (if not (is_key public_key) then err invalid_proof_of_possession else ok tt)
      also (if not (verify_strict public_key message proof)
          then err invalid_proof_of_possession
          else ok tt)
  check_proof required _ _ message = if required then err proof_of_possession_required else ok tt

  -- The checks of a decoded token, in the order of the code.
  unfoldable pub check_token :
      LocalTokenVerifier
      → RevocationSnapshot
      → VerificationRequest
      → DecodedToken
      → Result TokenError (Unit {0})
  unfolding status
  check_token verifier revocations request decoded =
      let claims = decoded.claims in
      check_time verifier.config request.now claims
      also check_issuer verifier.keys decoded
      also check_status
          (status revocations claims.issuer_key_id (number claims.token_id) request.now)
      also check_scope request claims
      also check_proof verifier.config.require_proof_of_possession
          claims.proof_of_possession_public_key request.proof_of_possession
          (proof_of_possession_message claims.token_id request.gateway_binding request.challenge)

  module _ (encode_envelope : SignedTokenEnvelopeV1 → List ℕ)
      (decode_envelope : List ℕ → Option SignedTokenEnvelopeV1)
      (encode_claims : CapabilityClaimsV1 → List ℕ)
      (decode_claims : List ℕ → Option CapabilityClaimsV1) (sha256 : List ℕ → List ℕ) where
    -- What a request asks the store for.
    abbrev pub reservation : VerificationRequest → CapabilityClaims → TokenReservation
    reservation request claims = record {
      token_id = number claims.token_id;
      session_id = number (
          sha256 (lease_domain ++ claims.token_id ++ request.gateway_binding ++ request.challenge));
      now = request.now;
      expires_at = seconds claims.expires_at;
      max_active_sessions = claims.policy.connection_limits.max_active_sessions;
    }

    abbrev pub capability_for : CapabilityClaims → SessionLease → VerifiedCapability
    capability_for claims lease = record {
      policy = claims.policy;
      expires_at = claims.expires_at;
      lease = lease;
    }

    abbrev pub answer :
        CapabilityClaims
        → Store × Result TokenStoreError SessionLease
        → Store × Result TokenError VerifiedCapability
    answer claims (store, reserved) =
        (store, and_then (map_store_err reserved) λ lease. ok (capability_for claims lease))

    -- The claims that the checks let through.
    unfoldable pub authenticate :
        LocalTokenVerifier
        → RevocationSnapshot
        → VerificationRequest
        → Result TokenError CapabilityClaims
    unfolding check_token decode_token
    authenticate verifier revocations request =
        and_then
          (decode_token encode_envelope decode_envelope encode_claims decode_claims
            request.encoded_token)
          λ decoded. check_token verifier revocations request decoded also ok decoded.claims

    abbrev pub reserve_for :
        VerificationRequest
        → Result TokenError CapabilityClaims
        → Method Store TokenError VerifiedCapability
    reserve_for request (err e) store = (store, err e)
    reserve_for request (ok claims) store =
        answer claims (reserve (reservation request claims) store)

    unfoldable pub verify :
        LocalTokenVerifier
        → RevocationSnapshot
        → VerificationRequest
        → Method Store TokenError VerifiedCapability
    unfolding authenticate
    verify verifier revocations request store =
        reserve_for request (authenticate verifier revocations request) store
