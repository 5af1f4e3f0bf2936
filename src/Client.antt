-- ===== src/Client.antt =====
-- crates/common-types: the client's connection states, its errors and its recovery decisions.
pub mod Error
pub mod State
pub mod Recovery
