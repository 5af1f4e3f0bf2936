-- ===== src/Tokens.antt =====
-- crates/auth-tokens: capability tokens, and the state that a gateway keeps about them.
pub mod Error
pub mod Policy
pub mod Wire
pub mod Claims
pub mod Codec
pub mod Revocation
pub mod Replay
pub mod Issuer
pub mod Verifier
mod Tests
