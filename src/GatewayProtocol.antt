-- ===== src/GatewayProtocol.antt =====
-- crates/gateway-protocol: the framed protocol between a client and a gateway.
pub mod Error
pub mod Limits
pub mod Negotiation
pub mod Messages
pub mod Validation
pub mod Flow
pub mod Scheduler
pub mod Varint
pub mod Envelope
pub mod Framing
pub mod Session
pub mod Binding
pub mod Client
pub mod Server
