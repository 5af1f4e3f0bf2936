-- ===== src/Tokens/Claims.antt =====
-- crates/auth-tokens/src/types.rs and the constants of lib.rs: what a token claims. Keys, ids and
-- signatures are lists of bytes, whose lengths the types of the code fix.
use vpn_ne_vpn.Prelude.{
  ℕ, ◌*◌, Bool, not, ◌||◌, ◌&&◌, if◌then◌else◌, ltb, leb, ◌==◌, Result, ok, err, Option, List, [],
  ◌∷◌, ◌++◌, String, ◌also◌,
}
use vpn_ne_vpn.Prelude.Ints.{ℤ}
use vpn_ne_vpn.Prelude.Texts.{is_empty, bytes, all_bytes}
use vpn_ne_vpn.Tokens.Error.{TokenError, unsupported_version, invalid_key_id}
use vpn_ne_vpn.Tokens.Policy.{
  CapabilityPolicy, GatewayRole, RegionSet, validate_canonical, validate_window,
}
use vpn_ne_vpn.Tokens.Replay.{SessionLease}

abbrev pub token_version_v1 : ℕ
token_version_v1 = 1

abbrev pub max_token_bytes : ℕ
max_token_bytes = 4 * 1024

abbrev pub token_id_length : ℕ
token_id_length = 32

abbrev pub pop_public_key_length : ℕ
pop_public_key_length = 32

abbrev pub signature_length : ℕ
signature_length = 64

pub record CapabilityClaims : Type 0 where
  pub token_version : ℕ
  pub token_id : List ℕ
  pub policy : CapabilityPolicy
  pub not_before : ℤ
  pub expires_at : ℤ
  pub issuer_key_id : String
  pub proof_of_possession_public_key : Option (List ℕ)

-- Letters, digits, `-`, `_` and `.`
abbrev pub is_key_byte : ℕ → Bool
is_key_byte b =
    (leb 97 b && leb b 122)
    || (leb 65 b && leb b 90)
    || (leb 48 b && leb b 57)
    || b == 45
    || b == 95
    || b == 46

unfoldable pub validate_key_id : String → Result TokenError (Unit {0})
validate_key_id key_id =
    if is_empty key_id || ltb 64 (bytes key_id) || not (all_bytes is_key_byte key_id)
    then err invalid_key_id
    else ok tt

unfoldable pub validate_shape : CapabilityClaims → Result TokenError (Unit {0})
unfolding validate_canonical validate_window validate_key_id
validate_shape claims =
    (if not (claims.token_version == token_version_v1) then err unsupported_version else ok tt)
    also validate_canonical claims.policy
    also validate_window claims.not_before claims.expires_at
    also validate_key_id claims.issuer_key_id

pub record IssueTokenRequest : Type 0 where
  pub policy : CapabilityPolicy
  pub not_before : ℤ
  pub expires_at : ℤ
  pub proof_of_possession_public_key : Option (List ℕ)

pub record IssuedToken : Type 0 where
  pub encoded : List ℕ
  pub not_before : ℤ
  pub expires_at : ℤ

pub record IssuerPublicKey : Type 0 where
  pub key_id : String
  pub public_key : List ℕ
  pub not_before : ℤ
  pub not_after : ℤ

-- The clock is not before 1970.
pub record VerificationRequest : Type 0 where
  pub encoded_token : List ℕ
  pub required_role : GatewayRole
  pub gateway_region : RegionSet
  pub now : ℕ
  pub gateway_binding : List ℕ
  pub challenge : List ℕ
  pub proof_of_possession : Option (List ℕ)

pub record VerifiedCapability : Type 0 where
  pub policy : CapabilityPolicy
  pub expires_at : ℤ
  pub lease : SessionLease

-- `b"onionroute-pop-v1\0"`
abbrev pub proof_domain : List ℕ
proof_domain =
    111 ∷ 110 ∷ 105 ∷ 111 ∷ 110 ∷ 114 ∷ 111 ∷ 117 ∷ 116 ∷ 101 ∷ 45 ∷ 112 ∷ 111 ∷ 112 ∷ 45 ∷ 118 ∷ 49
    ∷ 0 ∷ []

abbrev pub proof_of_possession_message : List ℕ → List ℕ → List ℕ → List ℕ
proof_of_possession_message token_id gateway_binding challenge =
    proof_domain ++ token_id ++ gateway_binding ++ challenge
