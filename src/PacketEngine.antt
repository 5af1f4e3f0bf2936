-- ===== src/PacketEngine.antt =====
-- crates/packet-engine: the packets of the tunnel.
pub mod Packet
