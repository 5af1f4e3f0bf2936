-- ===== src/Tokens/Verifier/Acceptance.antt =====
-- crates/auth-tokens/src/verifier.rs: what the checks of a token let through.
use vpn_ne_vpn.Prelude.{
  ℕ, ◌+◌, ◌*◌, ◌≡◌, refl, Bool, true, false, ◌||◌, ◌==◌, ok, ok_or, Option, some, none, List,
  length, String, arith,
}
use vpn_ne_vpn.Prelude.Ints.{pos, is_less}
use vpn_ne_vpn.Prelude.Bytes.{number}
use vpn_ne_vpn.Prelude.Checks.{
  guard_passed, require_passed, ok_or-some, not-not, also_passed, then_passed, unless_passed,
}
use vpn_ne_vpn.Prelude.Maps.{Map, lookup, string_eq}
use vpn_ne_vpn.Prelude.Members.{member}
use vpn_ne_vpn.Tokens.Error.{
  unsupported_version, not_yet_valid, expired, unknown_issuer_key, issuer_key_outside_validity,
  invalid_signature, role_not_allowed, region_not_allowed, proof_of_possession_required,
}
use vpn_ne_vpn.Tokens.Policy.{
  GatewayRole, profile, permitted_roles, role_number, role_numbers, role_allowed, allows,
  validate_canonical, validate_window, token_bucket_seconds, token_ttl_seconds,
}
use vpn_ne_vpn.Tokens.Policy.Profile.{validate_canonical-profile, validate_window-bucket}
use vpn_ne_vpn.Tokens.Claims.{
  CapabilityClaims, token_version_v1, IssuerPublicKey, VerificationRequest, signature_length,
  proof_of_possession_message, validate_shape,
}
use vpn_ne_vpn.Tokens.Codec.{DecodedToken}
use vpn_ne_vpn.Tokens.Revocation.{
  RevocationStatus, RevocationSnapshot, active, revoked, snapshot_stale, status,
}
use vpn_ne_vpn.Tokens.Verifier.{
  LocalTokenVerifier, add_skew, check_status, check_time, check_scope, check_issuer, check_proof,
  check_token,
}

-- A token whose checks of shape passed starts at a bucket's boundary, ends a token's life later, and
-- has, when it allows a role, the profile of its plan for that role.
pub record IsShaped (c : CapabilityClaims) (role : GatewayRole) : Type 0 where
  pub bucket : ℕ
  pub starts : c.not_before ≡ pos (bucket * token_bucket_seconds)
  pub ends : c.expires_at ≡ pos (bucket * token_bucket_seconds + token_ttl_seconds)
  pub canonical : c.policy ≡ profile c.policy.plan_class c.policy.region_set role
  pub permitted :
      member (role_number role) (role_numbers (permitted_roles c.policy.plan_class)) ≡ true

pub validate_shape-IsShaped :
    (c : CapabilityClaims) (role : GatewayRole)
    → validate_shape c ≡ ok tt
    → role_allowed c.policy role ≡ true
    → IsShaped c role
unfolding validate_shape
validate_shape-IsShaped c role h r =
    let (_, checked) =
      require_passed (c.token_version == token_version_v1) unsupported_version _ h in
    let (is_canonical, timed) = also_passed (validate_canonical c.policy) _ checked in
    let (window, _) = also_passed (validate_window c.not_before c.expires_at) _ timed in
    let (n, (s, e)) = validate_window-bucket c.not_before c.expires_at window in
    let (p, m) = validate_canonical-profile c.policy role is_canonical r in
    record { bucket = n; starts = s; ends = e; canonical = p; permitted = m }

or_false : (a b : Bool) → (a || b) ≡ false → (a ≡ false) × (b ≡ false)
or_false true b h = absurd (cc h)
or_false false b h = (refl, h)

check_status-active : (s : RevocationStatus) → check_status s ≡ ok tt → s ≡ active
check_status-active active h = refl
check_status-active revoked h = absurd (cc h)
check_status-active snapshot_stale h = absurd (cc h)

module _ (is_key : List ℕ → Bool) (verify_strict : List ℕ → List ℕ → List ℕ → Bool) where
  -- The holder of the token's key signed the message, where the token has a key and there is a proof;
  -- otherwise no proof is required.
  abbrev pub Proved : Bool → Option (List ℕ) → Option (List ℕ) → List ℕ → Type 0
  Proved required (some public_key) (some proof) message =
      (length proof ≡ signature_length)
      × ((is_key public_key ≡ true) × (verify_strict public_key message proof ≡ true))
  Proved required (some public_key) none message = required ≡ false
  Proved required none proof message = required ≡ false

  check_proof-Proved :
      (required : Bool) (public_key proof : Option (List ℕ)) (message : List ℕ)
      → check_proof is_key verify_strict required public_key proof message ≡ ok tt
      → Proved required public_key proof message
  check_proof-Proved required (some key) (some proof) message h = ground (arith, h)
  check_proof-Proved required (some key) none message h =
      unless_passed proof_of_possession_required required h
  check_proof-Proved required none (some proof) message h =
      unless_passed proof_of_possession_required required h
  check_proof-Proved required none none message h =
      unless_passed proof_of_possession_required required h

  -- The key of the token's issuer is known, covers the token's window and signed its claims.
  pub record IsSigned (keys : Map String IssuerPublicKey) (decoded : DecodedToken) : Type 0 where
    pub key : IssuerPublicKey
    pub known : lookup decoded.claims.issuer_key_id keys ≡ some key
    pub covers_start : is_less decoded.claims.not_before key.not_before ≡ false
    pub covers_end : is_less key.not_after decoded.claims.expires_at ≡ false
    pub well_formed : is_key key.public_key ≡ true
    pub signed : verify_strict key.public_key decoded.claims_bytes decoded.signature ≡ true

  check_issuer-IsSigned :
      (keys : Map String IssuerPublicKey) (decoded : DecodedToken)
      → check_issuer is_key verify_strict keys decoded ≡ ok tt
      → IsSigned keys decoded
  check_issuer-IsSigned keys decoded h =
      let (key, (known, q)) =
        then_passed (ok_or (lookup decoded.claims.issuer_key_id keys) unknown_issuer_key) _ h in
      let (covers, r) =
        guard_passed
          (is_less decoded.claims.not_before key.not_before
            || is_less key.not_after decoded.claims.expires_at)
          issuer_key_outside_validity _ q in
      let (formed, t) = require_passed (is_key key.public_key) invalid_signature _ r in
      record {
        key = key;
        known = ok_or-some _ unknown_issuer_key known;
        covers_start = (or_false _ _ covers).0;
        covers_end = (or_false _ _ covers).1;
        well_formed = formed;
        signed = not-not _ (unless_passed invalid_signature _ t);
      }

  pub record IsAccepted (verifier : LocalTokenVerifier) (revocations : RevocationSnapshot)
      (request : VerificationRequest) (decoded : DecodedToken) : Type 0 where
    pub signed : IsSigned verifier.keys decoded
    pub started :
        is_less
          (add_skew request.now verifier.config.maximum_clock_skew_seconds)
          decoded.claims.not_before
        ≡ false
    pub live : is_less (pos request.now) decoded.claims.expires_at ≡ true
    pub not_revoked :
        status revocations decoded.claims.issuer_key_id (number decoded.claims.token_id) request.now
        ≡ active
    pub role : role_allowed decoded.claims.policy request.required_role ≡ true
    pub region : allows decoded.claims.policy.region_set request.gateway_region ≡ true
    pub proved :
        Proved verifier.config.require_proof_of_possession
          decoded.claims.proof_of_possession_public_key request.proof_of_possession
          (proof_of_possession_message decoded.claims.token_id request.gateway_binding
            request.challenge)

  pub check_token-IsAccepted :
      (verifier : LocalTokenVerifier) (revocations : RevocationSnapshot)
      (request : VerificationRequest) (decoded : DecodedToken)
      → check_token is_key verify_strict verifier revocations request decoded ≡ ok tt
      → IsAccepted verifier revocations request decoded
  unfolding check_token
  check_token-IsAccepted v revocations request decoded h =
      let claims = decoded.claims in
      let (timed, p) = also_passed (check_time v.config request.now claims) _ h in
      let (issued, q) = also_passed (check_issuer is_key verify_strict v.keys decoded) _ p in
      let (known, r) =
        also_passed
          (check_status
            (status revocations claims.issuer_key_id (number claims.token_id) request.now))
          _ q in
      let (scoped, proved) = also_passed (check_scope request claims) _ r in
      let (started, ends) =
        guard_passed
          (is_less (add_skew request.now v.config.maximum_clock_skew_seconds) claims.not_before)
          not_yet_valid _ timed in
      let (role, region) =
        require_passed (role_allowed claims.policy request.required_role) role_not_allowed _
          scoped in
      record {
        signed = check_issuer-IsSigned v.keys decoded issued;
        started = started;
        live = not-not _ (unless_passed expired _ ends);
        not_revoked = check_status-active _ known;
        role = role;
        region = not-not _ (unless_passed region_not_allowed _ region);
        proved = check_proof-Proved _ _ _ _ proved;
      }
