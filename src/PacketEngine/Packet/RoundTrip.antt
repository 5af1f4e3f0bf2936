-- ===== src/PacketEngine/Packet/RoundTrip.antt =====
-- crates/packet-engine/src/packet.rs: the packets that the engine makes are those that it parses.
use vpn_ne_vpn.Prelude.{
  ℕ, ◌+◌, ◌*◌, ◌≤◌, ◌<◌, ◌≡◌, refl, ap, ◌∙◌, false, not, ◌||◌, ltb, ◌==◌, if◌then◌else◌, ok,
  and_then, saturating_add, List, [], length, take, drop, take_all, arith,
}
use vpn_ne_vpn.Prelude.Checks.{also_continues, unless_passes}
use vpn_ne_vpn.PacketEngine.Packet.{
  Ipv4Addr, TcpSegment, UdpDatagram, tcp, udp, truncated, invalid_length, invalid_ipv4_checksum,
  high, low, checksum, transport_checksum, parse_payload, classify_ipv4, classify, ipv4_header,
  tcp_bytes, udp_bytes, build_ipv4, build_tcp_packet, build_udp_packet,
}
use vpn_ne_vpn.PacketEngine.Packet.Checksum.{words, checksum-zero, checksum-le}
use vpn_ne_vpn.PacketEngine.Packet.Datagrams.{
  IsDatagram, parse_udp-udp_bytes, words-udp_bytes, words-udp_bytes-lt,
}
use vpn_ne_vpn.PacketEngine.Packet.Segments.{
  IsAddress, IsSegment, u16-high-low, not_below, parse_tcp-tcp_bytes, sealed-zero, words-tcp_bytes,
  words-tcp_bytes-lt,
}

-- The address that a header names is read from it.
header-checksum :
    (total protocol : ℕ) (x y : Ipv4Addr)
    → IsAddress x
    → IsAddress y
    → protocol < 256
    → total < 65536
    → checksum (ipv4_header (checksum (ipv4_header 0 total protocol x y [])) total protocol x y [])
      ≡ 0
header-checksum total protocol x y u v p t =
    let plain = ipv4_header 0 total protocol x y [] in
    let fits : words plain < 4294967296 = omega (arith, u.a, u.b, u.c, u.d, v.a, v.b, v.c, v.d) in
    let top = checksum-le plain fits in
    checksum-zero plain (ipv4_header (checksum plain) total protocol x y []) fits
      (omega (arith, u.a, u.b, u.c, u.d, v.a, v.b, v.c, v.d, top)) (omega arith)

is_within :
    (total size : ℕ)
    → size ≡ total
    → 20 ≤ total
    → total < 65536
    → (false || ltb (high total * 256 + low total) 20 || ltb size (high total * 256 + low total))
      ≡ false
is_within total size e l t = ground (arith, u16-high-low total t)

payload-ipv4_header :
    (sum total protocol : ℕ) (x y : Ipv4Addr) (rest : List ℕ)
    → total ≡ length rest + 20
    → total < 65536
    → drop 20 (take (high total * 256 + low total) (ipv4_header sum total protocol x y rest)) ≡ rest
payload-ipv4_header sum total protocol x y rest e t = ap (drop 20) (
    take_all (ipv4_header sum total protocol x y rest) (high total * 256 + low total)
      (omega (arith, u16-high-low total t)))

-- A packet with the checksum of its header is checked and its payload parsed.
classify-ipv4_header :
    (sum total protocol : ℕ) (x y : Ipv4Addr) (rest : List ℕ)
    → checksum (ipv4_header sum total protocol x y []) ≡ 0
    → total ≡ length rest + 20
    → total < 65536
    → classify (ipv4_header sum total protocol x y rest) ≡ parse_payload protocol x y rest
unfolding classify classify_ipv4
classify-ipv4_header sum total protocol x y rest z e t =
    let long : ltb (length (ipv4_header sum total protocol x y rest)) 20 ≡ false =
      not_below _ 20 (omega arith) in
    also_continues _ (unless_passes truncated long)
    ∙ also_continues _ (
        unless_passes invalid_length (
          is_within total (length (ipv4_header sum total protocol x y rest)) (omega (arith, e))
            (omega (arith, e)) t))
    ∙ also_continues _ (unless_passes invalid_ipv4_checksum (ap (λ n. not (n == 0)) z))
    ∙ ap (parse_payload protocol x y) (payload-ipv4_header sum total protocol x y rest e t)

classify-build_ipv4 :
    (total protocol : ℕ) (x y : Ipv4Addr) (rest : List ℕ)
    → IsAddress x
    → IsAddress y
    → protocol < 256
    → total ≡ length rest + 20
    → total < 65536
    → classify (build_ipv4 total protocol x y rest) ≡ parse_payload protocol x y rest
unfolding build_ipv4
classify-build_ipv4 total protocol x y rest u v p e t =
    classify-ipv4_header (checksum (ipv4_header 0 total protocol x y [])) total protocol x y rest
      (header-checksum total protocol x y u v p t) e t

saturating_add-add : (m n : ℕ) → m + n ≤ 65535 → saturating_add m n ≡ n + m
saturating_add-add m n h = ground arith

within_limit :
    (total size : ℕ) (f : ℕ → List ℕ)
    → total ≡ size
    → size ≤ 65535
    → (if ltb 65535 total then [] else f total) ≡ f size
within_limit total size f e l = rw (e, not_below 65535 size l)

-- What is built for a segment that fits.
built_tcp :
    (s : TcpSegment)
    → IsSegment s
    → build_tcp_packet s
      ≡ build_ipv4
          (length s.payload + 40)
          6
          s.source
          s.destination
          (tcp_bytes (transport_checksum s.source s.destination 6 (tcp_bytes 0 s)) s)
unfolding build_tcp_packet
built_tcp s v =
    within_limit (saturating_add 40 (length s.payload)) (length s.payload + 40)
      (λ total.
        build_ipv4 total 6 s.source s.destination
          (tcp_bytes (transport_checksum s.source s.destination 6 (tcp_bytes 0 s)) s))
      (saturating_add-add 40 (length s.payload) (omega (arith, v.size))) (omega (arith, v.size))

built_udp :
    (s : UdpDatagram)
    → IsDatagram s
    → build_udp_packet s
      ≡ build_ipv4
          (length s.payload + 28)
          17
          s.source
          s.destination
          (udp_bytes (transport_checksum s.source s.destination 17 (udp_bytes 0 s)) s)
unfolding build_udp_packet
built_udp s v =
    within_limit (saturating_add 20 (saturating_add 8 (length s.payload))) (length s.payload + 28)
      (λ total.
        build_ipv4 total 17 s.source s.destination
          (udp_bytes (transport_checksum s.source s.destination 17 (udp_bytes 0 s)) s))
      (ap (saturating_add 20) (saturating_add-add 8 (length s.payload) (omega (arith, v.size)))
        ∙ saturating_add-add 20 (length s.payload + 8) (omega (arith, v.size))
        ∙ omega arith)
      (omega (arith, v.size))

-- A segment between ports that are not zero, of at most 65535 bytes as a packet, is made to a packet
-- that is checked and parsed to that segment.
pub classify-build_tcp_packet :
    (s : TcpSegment) → IsSegment s → classify (build_tcp_packet s) ≡ ok (tcp s)
unfolding parse_payload
classify-build_tcp_packet s v =
    let sum = transport_checksum s.source s.destination 6 (tcp_bytes 0 s) in
    let z =
      sealed-zero s.source s.destination 6 sum (tcp_bytes 0 s) (tcp_bytes sum s) v.source
        v.destination (omega arith) refl (words-tcp_bytes-lt s v) (words-tcp_bytes sum s) refl in
    ap classify (built_tcp s v)
    ∙ classify-build_ipv4 (length s.payload + 40) 6 s.source s.destination (tcp_bytes sum s)
        v.source v.destination (omega arith) (omega arith) (omega (arith, v.size))
    ∙ ap (λ r. and_then r (λ p. ok (tcp p))) (parse_tcp-tcp_bytes s sum v z)

-- A datagram between ports that are not zero, of at most 65535 bytes as a packet, is made to a packet
-- that is checked and parsed to that datagram, also when its checksum is zero.
pub classify-build_udp_packet :
    (s : UdpDatagram) → IsDatagram s → classify (build_udp_packet s) ≡ ok (udp s)
unfolding parse_payload
classify-build_udp_packet s v =
    let sum = transport_checksum s.source s.destination 17 (udp_bytes 0 s) in
    let z =
      sealed-zero s.source s.destination 17 sum (udp_bytes 0 s) (udp_bytes sum s) v.source
        v.destination (omega arith) refl (words-udp_bytes-lt s v) (words-udp_bytes sum s) refl in
    ap classify (built_udp s v)
    ∙ classify-build_ipv4 (length s.payload + 28) 17 s.source s.destination (udp_bytes sum s)
        v.source v.destination (omega arith) (omega arith) (omega (arith, v.size))
    ∙ ap (λ r. and_then r (λ p. ok (udp p))) (parse_udp-udp_bytes s sum v z)
