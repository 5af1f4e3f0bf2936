-- ===== src/Circuit.antt =====
-- crates/circuit-manager: the rotation of Tor contexts.
pub mod Rotation
