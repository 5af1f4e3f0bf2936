-- ===== src/Tokens/Issuer.antt =====
-- crates/auth-tokens/src/issuer.rs: the local issuer. The signature scheme, its check of a key, the
-- protobuf library's coders and the random bytes are parameters; no bytes stand for a failure of the
-- random source.
use vpn_ne_vpn.Prelude.{
  ℕ, zero, suc, Bool, not, ◌||◌, if◌then◌else◌, Result, ok, err, ok_or, and_then, Option, some,
  none, List, [], ◌∷◌, String, ◌also◌,
}
use vpn_ne_vpn.Prelude.Ints.{ℤ, pos, is_less, is_negative}
use vpn_ne_vpn.Tokens.Error.{
  TokenError, issuer_key_outside_validity, invalid_proof_of_possession, randomness_unavailable,
}
use vpn_ne_vpn.Tokens.Policy.{
  CapabilityPolicy, basic, europe, exit, canonical, validate_canonical, validate_window,
  token_ttl_seconds,
}
use vpn_ne_vpn.Tokens.Wire.{SignedTokenEnvelopeV1, CapabilityClaimsV1}
use vpn_ne_vpn.Tokens.Claims.{
  CapabilityClaims, IssueTokenRequest, IssuedToken, IssuerPublicKey, token_version_v1,
  token_id_length, validate_shape,
}
use vpn_ne_vpn.Tokens.Codec.{claims_signing_bytes, encode_token}

pub record LocalEd25519TokenIssuer : Type 0 where
  pub key_id : String
  pub signing_key : List ℕ
  pub key_not_before : ℤ
  pub key_not_after : ℤ

abbrev pub zeros : ℕ → List ℕ
zeros zero = []
zeros (suc n) = 0 ∷ zeros n

-- The claims whose shape checks the key's id.
abbrev pub probe : String → CapabilityPolicy → CapabilityClaims
probe key_id policy = record {
  token_version = token_version_v1;
  token_id = zeros token_id_length;
  policy = policy;
  not_before = pos 0;
  expires_at = pos token_ttl_seconds;
  issuer_key_id = key_id;
  proof_of_possession_public_key = none;
}

unfoldable pub from_secret_bytes :
    String → List ℕ → ℤ → ℤ → Result TokenError LocalEd25519TokenIssuer
unfolding canonical validate_shape
from_secret_bytes key_id secret_key key_not_before key_not_after =
    and_then (canonical basic europe exit) λ policy.
      validate_shape (probe key_id policy)
      also (if is_negative key_not_before || not (is_less key_not_before key_not_after)
          then err issuer_key_outside_validity
          else ok tt)
      also ok (record {
        key_id = key_id;
        signing_key = secret_key;
        key_not_before = key_not_before;
        key_not_after = key_not_after;
      })

module _ (verifying_key : List ℕ → List ℕ) (sign : List ℕ → List ℕ → List ℕ)
    (is_key : List ℕ → Bool) where
  abbrev pub public_key : LocalEd25519TokenIssuer → IssuerPublicKey
  public_key issuer = record {
    key_id = issuer.key_id;
    public_key = verifying_key issuer.signing_key;
    not_before = issuer.key_not_before;
    not_after = issuer.key_not_after;
  }

  abbrev pub check_holder : Option (List ℕ) → Result TokenError (Unit {0})
  check_holder none = ok tt
  check_holder (some key) = if not (is_key key) then err invalid_proof_of_possession else ok tt

  abbrev pub check_request :
      LocalEd25519TokenIssuer → IssueTokenRequest → Result TokenError (Unit {0})
  unfolding validate_canonical validate_window
  check_request issuer request =
      validate_canonical request.policy
      also validate_window request.not_before request.expires_at
      also (if is_less request.not_before issuer.key_not_before
            || is_less issuer.key_not_after request.expires_at
          then err issuer_key_outside_validity
          else ok tt)
      also check_holder request.proof_of_possession_public_key

  -- The claims of a token with this id.
  abbrev pub claims_of : LocalEd25519TokenIssuer → IssueTokenRequest → List ℕ → CapabilityClaims
  claims_of issuer request token_id = record {
    token_version = token_version_v1;
    token_id = token_id;
    policy = request.policy;
    not_before = request.not_before;
    expires_at = request.expires_at;
    issuer_key_id = issuer.key_id;
    proof_of_possession_public_key = request.proof_of_possession_public_key;
  }

  module _ (encode_envelope : SignedTokenEnvelopeV1 → List ℕ)
      (decode_envelope : List ℕ → Option SignedTokenEnvelopeV1)
      (encode_claims : CapabilityClaimsV1 → List ℕ)
      (decode_claims : List ℕ → Option CapabilityClaimsV1) where
    unfoldable pub issue :
        LocalEd25519TokenIssuer
        → IssueTokenRequest
        → Option (List ℕ)
        → Result TokenError IssuedToken
    unfolding claims_signing_bytes encode_token
    issue issuer request random =
        check_request issuer request
        also and_then (ok_or random randomness_unavailable) λ token_id.
          let claims = claims_of issuer request token_id in
          and_then
            (claims_signing_bytes encode_envelope decode_envelope encode_claims decode_claims
              claims)
            λ signing_bytes.
              and_then
                (encode_token encode_envelope decode_envelope encode_claims decode_claims claims
                  (sign issuer.signing_key signing_bytes))
                λ encoded. ok (record {
                  encoded = encoded;
                  not_before = claims.not_before;
                  expires_at = claims.expires_at;
                })
