-- ===== src/Tokens/Error.antt =====
-- crates/auth-tokens/src/error.rs: why a token is refused.
pub data TokenError : Type 0 where
  input_too_large invalid_encoding unsupported_version non_canonical_policy : TokenError
  invalid_time_window not_yet_valid expired invalid_key_id unknown_issuer_key : TokenError
  issuer_key_outside_validity invalid_signature revoked revocation_data_stale : TokenError
  role_not_allowed region_not_allowed proof_of_possession_required : TokenError
  invalid_proof_of_possession randomness_unavailable replay_detected : TokenError
  connection_limit_reached replay_protection_unavailable : TokenError
