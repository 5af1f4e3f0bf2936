-- ===== src/Multihop.antt =====
-- crates/gateway-multihop: what an entry gateway may use at an exit, and the routes of two hops.
pub mod Error
pub mod Quota
pub mod Mux
pub mod Pool
pub mod Route
pub mod Recovery
