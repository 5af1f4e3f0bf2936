-- ===== src/Policy.antt =====
-- crates/policy-engine: the gateways of a route.
pub mod Plan
