-- ===== src/PacketEngine/Packet/Datagrams.antt =====
-- crates/packet-engine/src/packet.rs: a datagram with its checksum is parsed to what it holds.
use vpn_ne_vpn.Prelude.{
  ℕ, ◌+◌, ◌*◌, ◌≤◌, ◌<◌, ◌≡◌, refl, ap, ◌∙◌, Bool, true, false, not, ◌||◌, ◌&&◌, ltb, ◌==◌, ok,
  length, take, take_all, arith,
}
use vpn_ne_vpn.Prelude.Bytes.{AllBytes}
use vpn_ne_vpn.Prelude.Checks.{also_passes, unless_passes}
use vpn_ne_vpn.PacketEngine.Packet.{
  UdpDatagram, truncated, invalid_length, invalid_transport_checksum, invalid_port, u16_at, high,
  low, transport_checksum, datagram_at, parse_udp, udp_bytes,
}
use vpn_ne_vpn.PacketEngine.Packet.Checksum.{words, words-le}
use vpn_ne_vpn.PacketEngine.Packet.Segments.{IsAddress, u16-high-low, not_below, is_port}

-- A datagram that fits a packet, between ports that are not zero.
pub record IsDatagram (s : UdpDatagram) : Type 0 where
  pub source : IsAddress s.source
  pub destination : IsAddress s.destination
  pub from : (1 ≤ s.source_port) × (s.source_port < 65536)
  pub to : (1 ≤ s.destination_port) × (s.destination_port < 65536)
  pub payload : AllBytes s.payload
  pub size : length s.payload + 28 ≤ 65535

pub words-udp_bytes :
    (sum : ℕ) (s : UdpDatagram) → words (udp_bytes sum s) ≡ words (udp_bytes 0 s) + sum
words-udp_bytes sum s = omega arith

pub words-udp_bytes-lt : (s : UdpDatagram) → IsDatagram s → words (udp_bytes 0 s) < 4294000000
words-udp_bytes-lt s v =
    let payload = words-le s.payload v.payload in omega (arith, payload, v.size, v.from.1, v.to.1)

take-udp_bytes :
    (s : UdpDatagram) (sum : ℕ)
    → IsDatagram s
    → take (u16_at 4 (udp_bytes sum s)) (udp_bytes sum s) ≡ udp_bytes sum s
take-udp_bytes s sum v =
    take_all (udp_bytes sum s) (u16_at 4 (udp_bytes sum s))
      (omega (arith, v.size, u16-high-low (8 + length s.payload) (omega (arith, v.size))))

has_room :
    (size n : ℕ)
    → n ≡ size
    → 8 ≤ size
    → size < 65536
    → (ltb (high size * 256 + low size) 8 || ltb n (high size * 256 + low size)) ≡ false
has_room size n e l t = ground (arith, u16-high-low size t)

and_false : (a b : Bool) → b ≡ false → (a && b) ≡ false
and_false true b h = h
and_false false b h = refl

datagram_at-udp_bytes :
    (s : UdpDatagram) (sum : ℕ)
    → IsDatagram s
    → datagram_at s.source s.destination (udp_bytes sum s) (udp_bytes sum s) ≡ s
datagram_at-udp_bytes s sum v =
    cc (u16-high-low s.source_port v.from.1, u16-high-low s.destination_port v.to.1)

pub parse_udp-udp_bytes :
    (s : UdpDatagram) (sum : ℕ)
    → IsDatagram s
    → transport_checksum s.source s.destination 17 (udp_bytes sum s) ≡ 0
    → parse_udp s.source s.destination (udp_bytes sum s) ≡ ok s
unfolding parse_udp
parse_udp-udp_bytes s sum v z =
    let whole = take-udp_bytes s sum v in
    also_passes (unless_passes truncated (not_below _ 8 (omega arith))) (
      also_passes
        (unless_passes invalid_port
          (is_port s.source_port s.destination_port v.from.0 v.from.1 v.to.0 v.to.1))
        (also_passes
          (unless_passes invalid_length (
            has_room (8 + length s.payload) (length (udp_bytes sum s)) (omega arith) (omega arith)
              (omega (arith, v.size))))
          (also_passes
            (unless_passes invalid_transport_checksum (
              and_false _ _ (
                ap (λ b. not (transport_checksum s.source s.destination 17 b == 0)) whole
                ∙ ap (λ n. not (n == 0)) z)))
            (ap ok (
              ap (datagram_at s.source s.destination (udp_bytes sum s)) whole
              ∙ datagram_at-udp_bytes s sum v)))))
