-- ===== src/Client/Recovery.antt =====
-- crates/common-types/src/state.rs: the recovery that a classified error calls for.
use vpn_ne_vpn.Prelude.{Bool, true, false, ◌&&◌, if◌then◌else◌, ◌≡◌, ◌≢◌, ◌⊎◌, ◌↔◌, arith}
use vpn_ne_vpn.Client.Error.{
  OnionError, ErrorCode, RetryClass, Severity, rotation_deferred, directory_signature_invalid,
  never, immediate, backoff, after_directory_refresh, after_token_refresh, user_action, fatal,
  is_must_block, requires_blocking,
}

pub data RecoveryAction : Type 0 where
  retry_current_phase reconnect_with_backoff refresh_directory refresh_token : RecoveryAction
  keep_old_session enter_blocked enter_fatal wait_for_user : RecoveryAction

abbrev pub is_fatal : Severity → Bool
is_fatal fatal = true
is_fatal _ = false

abbrev pub is_rotation_deferred : ErrorCode → Bool
is_rotation_deferred rotation_deferred = true
is_rotation_deferred _ = false

abbrev pub is_signature_invalid : ErrorCode → Bool
is_signature_invalid directory_signature_invalid = true
is_signature_invalid _ = false

by_retry : RetryClass → RecoveryAction
by_retry never = enter_fatal
by_retry immediate = retry_current_phase
by_retry backoff = reconnect_with_backoff
by_retry after_directory_refresh = refresh_directory
by_retry after_token_refresh = refresh_token
by_retry user_action = wait_for_user

unfoldable pub recovery_action : OnionError → Bool → Bool → RecoveryAction
unfolding by_retry
recovery_action e old_path_healthy cached_directory_valid =
    if is_must_block e.safety
    then enter_blocked
    else if is_fatal e.severity
    then enter_fatal
    else if is_rotation_deferred e.code && old_path_healthy
    then keep_old_session
    else if is_signature_invalid e.code && cached_directory_valid
    then retry_current_phase
    else by_retry e.retry

-- The actions that go on trying over the network or on the old session.
abbrev pub goes_on : RecoveryAction → Bool
goes_on enter_blocked = false
goes_on enter_fatal = false
goes_on wait_for_user = false
goes_on _ = true

-- Traffic is blocked exactly for the errors that require blocking, whatever their severity, code or
-- retry class; and an action that goes on is chosen only for an error that neither requires blocking
-- nor is fatal.
pub recovery_action_safe :
    (e : OnionError) (healthy cached : Bool)
    → ((recovery_action e healthy cached ≡ enter_blocked) ↔ (requires_blocking e ≡ true))
      × (goes_on (recovery_action e healthy cached) ≡ true
          → (requires_blocking e ≡ false) × (e.severity ≢ fatal))
unfolding recovery_action requires_blocking
recovery_action_safe e healthy cached =
    ((λ h. ground arith, λ h. ground arith), λ h. (ground arith, λ k. ground arith))

-- The old session is kept only while it is healthy, and an invalid signature is retried only with a
-- valid cached directory or where the error itself allows an immediate retry.
pub recovery_action_needs :
    (e : OnionError) (healthy cached : Bool)
    → (recovery_action e healthy cached ≡ keep_old_session → healthy ≡ true)
      × (recovery_action e healthy cached ≡ retry_current_phase
          → e.code ≡ directory_signature_invalid
          → (cached ≡ true) ⊎ (e.retry ≡ immediate))
unfolding recovery_action
recovery_action_needs e healthy cached = (λ h. ground arith, λ h k. ground arith)
