-- ===== src/Client/Error.antt =====
-- crates/common-types/src/error.rs: the error taxonomy that the client's components share.
use vpn_ne_vpn.Prelude.{Bool, true, false, String}

pub data ErrorDomain : Type 0 where
  configuration platform kill_switch tor directory authentication gateway : ErrorDomain
  packet dns policy storage control_plane protocol internal : ErrorDomain

pub data ErrorCode : Type 0 where
  invalid_configuration platform_unsupported kill_switch_apply_failed : ErrorCode
  kill_switch_verification_failed tor_bootstrap_timeout tor_unavailable tor_stream_failed :
      ErrorCode
  directory_unavailable directory_signature_invalid directory_expired directory_rollback : ErrorCode
  gateway_unavailable gateway_identity_mismatch protocol_incompatible message_too_large : ErrorCode
  protocol_violation token_unavailable token_rejected session_expired gateway_timeout : ErrorCode
  backpressure unsupported_transport policy_denied dns_resolution_failed dns_leak_detected :
      ErrorCode
  storage_unavailable storage_corrupt rotation_deferred protected_path_lost : ErrorCode
  shutdown_timeout invariant_violation : ErrorCode

pub data RetryClass : Type 0 where
  never immediate backoff after_directory_refresh after_token_refresh user_action : RetryClass

pub data SafetyImpact : Type 0 where
  protected must_block not_applicable : SafetyImpact

pub data Severity : Type 0 where
  warning error fatal : Severity

pub record OnionError : Type 0 where
  pub domain : ErrorDomain
  pub code : ErrorCode
  pub severity : Severity
  pub retry : RetryClass
  pub safety : SafetyImpact
  pub message : String

abbrev pub is_must_block : SafetyImpact → Bool
is_must_block must_block = true
is_must_block _ = false

unfoldable pub requires_blocking : OnionError → Bool
requires_blocking e = is_must_block e.safety
