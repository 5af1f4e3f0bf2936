-- ===== src/Tokens/Tests.antt =====
-- A small signature scheme and a coder of the tokens of one plan, and a token that is issued with them.
use vpn_ne_vpn.Prelude.{
  is_ok, false, take, drop, ℕ, ◌+◌, ◌≡◌, refl, Bool, ◌==◌, ok, Option, some, none, List, [], ◌∷◌,
  ◌++◌, length, arith,
}
use vpn_ne_vpn.Prelude.Ints.{pos}
use vpn_ne_vpn.Prelude.Bytes.{number, same_bytes, same_bytes_refl}
use vpn_ne_vpn.Prelude.Maps.{string_eq}
use vpn_ne_vpn.Tokens.Policy.{
  premium, relay, global, europe, profile, canonical, validate_canonical, validate_window,
}
use vpn_ne_vpn.Tokens.Wire.{SignedTokenEnvelopeV1, CapabilityClaimsV1}
use vpn_ne_vpn.Tokens.Claims.{
  CapabilityClaims, IssueTokenRequest, VerificationRequest, VerifiedCapability, validate_key_id,
  validate_shape, proof_of_possession_message,
}
use vpn_ne_vpn.Tokens.Codec.{
  DecodedToken, claims_to_wire, claims_from_wire, claims_signing_bytes, encode_token, open_envelope,
  decode_token,
}
use vpn_ne_vpn.Tokens.Codec.RoundTrip.{
  IsTyped, decode_token-encode_token, encode_token-decode_token,
}
use vpn_ne_vpn.Tokens.Revocation.{RevocationSnapshot, empty, status}
use vpn_ne_vpn.Tokens.Replay.{Store, retain_live, reserve}
use vpn_ne_vpn.Tokens.Issuer.{
  LocalEd25519TokenIssuer, zeros, public_key, claims_of, from_secret_bytes, issue,
}
use vpn_ne_vpn.Tokens.Verifier.{
  LocalTokenVerifier, default_config, new, check_token, reservation, authenticate, verify,
}
use vpn_ne_vpn.Tokens.Verifier.Acceptance.{IsAccepted, IsShaped}
use vpn_ne_vpn.Tokens.Verifier.Soundness.{verify_sound}
use vpn_ne_vpn.Tokens.Replay.Refusal.{run}
use vpn_ne_vpn.Tokens.Verifier.Once.{verify_once}
use vpn_ne_vpn.Tokens.Verifier.Completeness.{IsScheme, IsWelcome, issue-authenticate}

abbrev first : List ℕ → ℕ
first [] = 0
first (x ∷ xs) = x

abbrev total : List ℕ → ℕ
total [] = 0
total (x ∷ xs) = x + total xs

abbrev test_is_key : List ℕ → Bool
test_is_key key = length key == 32

abbrev test_verifying_key : List ℕ → List ℕ
test_verifying_key key = total key ∷ zeros 31

abbrev test_sign : List ℕ → List ℕ → List ℕ
test_sign key message = total key ∷ total message ∷ zeros 62

abbrev test_verify : List ℕ → List ℕ → List ℕ → Bool
test_verify key message signature = same_bytes (first key ∷ total message ∷ zeros 62) signature

abbrev test_hash : List ℕ → List ℕ
test_hash message = total message ∷ []

test-IsScheme : IsScheme test_is_key test_verify test_verifying_key test_sign
test-IsScheme = record {
  published = λ k. refl;
  checks = λ k m. same_bytes_refl (total k ∷ total m ∷ zeros 62);
  size = λ k m. refl;
}

abbrev envelope_bytes : SignedTokenEnvelopeV1 → List ℕ
envelope_bytes e = e.token_version ∷ e.claims ++ e.signature

abbrev read_envelope : List ℕ → Option SignedTokenEnvelopeV1
read_envelope [] = none
read_envelope (version ∷ xs) =
    some (record { token_version = version; claims = take 32 xs; signature = drop 32 xs })

abbrev issuer : LocalEd25519TokenIssuer
issuer = record {
  key_id = "k1";
  signing_key = 5 ∷ zeros 31;
  key_not_before = pos 0;
  key_not_after = pos 10000;
}

issuer-from_secret_bytes : from_secret_bytes "k1" (5 ∷ zeros 31) (pos 0) (pos 10000) ≡ ok issuer
unfolding from_secret_bytes canonical validate_shape validate_canonical validate_window
    validate_key_id
issuer-from_secret_bytes = refl

abbrev asked : IssueTokenRequest
asked = record {
  policy = profile premium global relay;
  not_before = pos 300;
  expires_at = pos 1200;
  proof_of_possession_public_key = some (4 ∷ zeros 31);
}

abbrev token_id : List ℕ
token_id = 7 ∷ zeros 31

abbrev claims : CapabilityClaims
claims = claims_of test_verifying_key test_sign test_is_key issuer asked token_id

abbrev claims_bytes : CapabilityClaimsV1 → List ℕ
claims_bytes w = w.token_id

abbrev read_claims : List ℕ → Option CapabilityClaimsV1
unfolding claims_to_wire
read_claims bytes = some (record (claims_to_wire claims) { token_id = bytes })

abbrev signature : List ℕ
signature = test_sign issuer.signing_key token_id

abbrev encoded : List ℕ
encoded = 1 ∷ token_id ++ signature

abbrev decoded : DecodedToken
decoded = record { claims = claims; claims_bytes = token_id; signature = signature }

claims-IsTyped : IsTyped claims
claims-IsTyped = record {
  id = refl;
  proof_key = refl;
  version = omega arith;
  sessions = omega arith;
  streams = omega arith;
  per_minute = omega arith;
}

claims-encode_token :
    encode_token envelope_bytes read_envelope claims_bytes read_claims claims signature ≡ ok encoded
unfolding encode_token claims_to_wire validate_shape validate_canonical canonical validate_window
    validate_key_id
claims-encode_token = refl

decode_token-encode_token_example :
    decode_token envelope_bytes read_envelope claims_bytes read_claims encoded ≡ ok decoded
unfolding claims_to_wire read_claims
decode_token-encode_token_example =
    decode_token-encode_token envelope_bytes read_envelope claims_bytes read_claims claims signature
      encoded refl refl (omega arith) claims-IsTyped refl claims-encode_token

encode_token-decode_token_example :
    encode_token envelope_bytes read_envelope claims_bytes read_claims claims signature ≡ ok encoded
unfolding claims_to_wire read_claims
encode_token-decode_token_example =
    encode_token-decode_token envelope_bytes read_envelope claims_bytes read_claims encoded decoded
      decode_token-encode_token_example

abbrev verifier : LocalTokenVerifier
verifier = record {
  keys = ("k1", public_key test_verifying_key test_sign test_is_key issuer) ∷ [];
  config = default_config;
}

verifier-new :
    new (public_key test_verifying_key test_sign test_is_key issuer ∷ []) default_config
    ≡ ok verifier
unfolding new
verifier-new = refl

-- Ten seconds early, which the skew allows.
abbrev request : VerificationRequest
request = record {
  encoded_token = encoded;
  required_role = relay;
  gateway_region = europe;
  now = 290;
  gateway_binding = 1 ∷ [];
  challenge = 2 ∷ [];
  proof_of_possession =
      some (4 ∷ total (proof_of_possession_message token_id (1 ∷ []) (2 ∷ [])) ∷ zeros 62);
}

abbrev revocations : RevocationSnapshot
revocations = empty (pos 5000)

claims-IsWelcome :
    IsWelcome test_is_key test_verify test_verifying_key test_sign envelope_bytes read_envelope
      claims_bytes read_claims test_hash verifier revocations request claims
unfolding status
claims-IsWelcome = record {
  started = refl;
  live = refl;
  not_revoked = refl;
  role = refl;
  region = refl;
  proved = refl;
}

claims-issue :
    issue test_verifying_key test_sign test_is_key envelope_bytes read_envelope claims_bytes
      read_claims issuer asked
      (some token_id)
    ≡ ok (record { encoded = encoded; not_before = pos 300; expires_at = pos 1200 })
unfolding issue claims_signing_bytes encode_token claims_to_wire validate_shape validate_canonical
    canonical validate_window validate_key_id
claims-issue = refl

issue-authenticate_example :
    authenticate test_is_key test_verify envelope_bytes read_envelope claims_bytes read_claims
      test_hash verifier revocations request
    ≡ ok claims
unfolding claims_to_wire read_claims
issue-authenticate_example =
    issue-authenticate test_is_key test_verify test_verifying_key test_sign envelope_bytes
      read_envelope claims_bytes read_claims test_hash issuer asked token_id
      (record { encoded = encoded; not_before = pos 300; expires_at = pos 1200 }) verifier
      revocations request test-IsScheme
      (record { envelopes = refl; claims = refl; nested = omega arith }) claims-IsTyped claims-issue
      refl refl claims-IsWelcome

abbrev lease_session : ℕ
lease_session =
    (reservation test_is_key test_verify envelope_bytes read_envelope claims_bytes read_claims
      test_hash request claims).session_id

abbrev capability : VerifiedCapability
capability = record {
  policy = profile premium global relay;
  expires_at = pos 1200;
  lease = record { token_id = number token_id; session_id = lease_session };
}

abbrev leased : Store
leased = (number token_id, record { expires_at = 1200; sessions = lease_session ∷ [] }) ∷ []

request-verify :
    verify test_is_key test_verify envelope_bytes read_envelope claims_bytes read_claims test_hash
      verifier revocations request []
    ≡ (leased, ok capability)
unfolding verify authenticate check_token decode_token open_envelope claims_from_wire status reserve
    retain_live claims_to_wire read_claims validate_shape validate_canonical canonical
    validate_window validate_key_id
request-verify = refl

verify_sound_example :
    (d : DecodedToken) × ((decode_token envelope_bytes read_envelope claims_bytes read_claims
          encoded
        ≡ ok d)
      × (IsAccepted test_is_key test_verify verifier revocations request d
          × (IsShaped d.claims relay
              × ((capability.policy ≡ d.claims.policy)
                  × (reserve
                        (reservation test_is_key test_verify envelope_bytes read_envelope
                          claims_bytes read_claims test_hash request d.claims)
                        []
                      ≡ (leased, ok capability.lease))))))
verify_sound_example =
    verify_sound test_is_key test_verify envelope_bytes read_envelope claims_bytes read_claims
      test_hash verifier revocations request [] leased capability request-verify

-- A second of the same request, ten seconds later.
verify_once_example :
    is_ok
      (verify test_is_key test_verify envelope_bytes read_envelope claims_bytes read_claims
        test_hash verifier revocations
        (record request { now = 300 })
        (run leased [])).1
    ≡ false
unfolding run
verify_once_example =
    verify_once test_is_key test_verify envelope_bytes read_envelope claims_bytes read_claims
      test_hash verifier verifier revocations revocations request (record request { now = 300 }) []
      leased capability (record { expires_at = 1200; sessions = lease_session ∷ [] }) []
      request-verify refl tt refl refl refl (omega arith)
