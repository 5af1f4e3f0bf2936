-- ===== src/Multihop/Error.antt =====
-- crates/gateway-multihop/src/error.rs: the error codes.
pub data ErrorCode : Type 0 where
  invalid_configuration invalid_identity wrong_role revoked protocol_incompatible : ErrorCode
  protocol_violation replay_detected authentication_rejected policy_denied : ErrorCode
  resource_exhausted backpressure draining timeout transport_failure closed internal : ErrorCode
