-- ===== src/Tokens/Wire.antt =====
-- crates/auth-tokens/src/wire.rs: the protobuf messages of a token. An enum's field is the integer that
-- was sent.
use vpn_ne_vpn.Prelude.{ℕ, Option, List, String}
use vpn_ne_vpn.Prelude.Ints.{ℤ}

pub record SignedTokenEnvelopeV1 : Type 0 where
  pub token_version : ℕ
  pub claims : List ℕ
  pub signature : List ℕ

pub record ConnectionLimitsV1 : Type 0 where
  pub max_active_sessions : ℕ
  pub max_concurrent_streams : ℕ
  pub new_connections_per_minute : ℕ

pub record CapabilityClaimsV1 : Type 0 where
  pub token_version : ℕ
  pub token_id : List ℕ
  pub plan_class : ℤ
  pub allowed_gateway_roles : List ℤ
  pub region_set : ℤ
  pub device_slot_class : ℤ
  pub bandwidth_class : ℤ
  pub connection_limits : Option ConnectionLimitsV1
  pub not_before : ℤ
  pub expires_at : ℤ
  pub issuer_key_id : String
  pub proof_of_possession_public_key : Option (List ℕ)
