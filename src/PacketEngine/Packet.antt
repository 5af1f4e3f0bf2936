-- ===== src/PacketEngine/Packet.antt =====
-- crates/packet-engine/src/packet.rs: the checked parsing of IP packets and the packets that the engine
-- makes. A packet is its list of bytes.
pub mod Checksum
pub mod Segments
pub mod Datagrams
mod Tests
pub mod RoundTrip
use vpn_ne_vpn.Prelude.{
  ℕ, zero, suc, ◌+◌, ◌-◌, ◌*◌, ◌/◌, ◌%◌, ◌^◌, Bool, true, false, not, ◌||◌, ◌&&◌, if◌then◌else◌,
  ltb, ◌==◌, Result, ok, err, and_then, ◌also◌, saturating_add, List, [], ◌∷◌, ◌++◌, length, take,
  drop,
}

pub data PacketError : Type 0 where
  truncated invalid_version invalid_length invalid_ipv4_checksum : PacketError
  invalid_transport_checksum fragmented invalid_port : PacketError

pub record Ipv4Addr : Type 0 where
  pub a : ℕ
  pub b : ℕ
  pub c : ℕ
  pub d : ℕ

pub record TcpFlags : Type 0 where
  pub fin : Bool
  pub syn : Bool
  pub rst : Bool
  pub psh : Bool
  pub ack : Bool

abbrev pub bit : Bool → ℕ
bit true = 1
bit false = 0

-- The shifted bits do not overlap, so `|` adds them.
abbrev pub bits : TcpFlags → ℕ
bits f = bit f.fin + 2 * bit f.syn + 4 * bit f.rst + 8 * bit f.psh + 16 * bit f.ack

-- `flags & 2^i != 0`
abbrev pub has_bit : ℕ → ℕ → Bool
has_bit value flags = not ((flags / value) % 2 == 0)

abbrev pub flags_of : ℕ → TcpFlags
flags_of flags = record {
  fin = has_bit 1 flags;
  syn = has_bit 2 flags;
  rst = has_bit 4 flags;
  psh = has_bit 8 flags;
  ack = has_bit 16 flags;
}

pub record TcpSegment : Type 0 where
  pub source : Ipv4Addr
  pub destination : Ipv4Addr
  pub source_port : ℕ
  pub destination_port : ℕ
  pub sequence : ℕ
  pub acknowledgement : ℕ
  pub window : ℕ
  pub flags : TcpFlags
  pub payload : List ℕ

pub record UdpDatagram : Type 0 where
  pub source : Ipv4Addr
  pub destination : Ipv4Addr
  pub source_port : ℕ
  pub destination_port : ℕ
  pub payload : List ℕ

pub record IcmpPacket : Type 0 where
  pub source : Ipv4Addr
  pub destination : Ipv4Addr
  pub message_type : ℕ
  pub code : ℕ

-- `IpProtocolClass::Other(n)` is the only class that is made.
pub data ClassifiedPacket : Type 0 where
  tcp : TcpSegment → ClassifiedPacket
  udp : UdpDatagram → ClassifiedPacket
  icmp : IcmpPacket → ClassifiedPacket
  ipv6 : ClassifiedPacket
  other : ℕ → ClassifiedPacket

-- `bytes[i]`, which is used within the length.
abbrev pub byte : ℕ → List ℕ → ℕ
byte i [] = 0
byte zero (x ∷ xs) = x
byte (suc i) (x ∷ xs) = byte i xs

-- `u16::from_be_bytes` and `u32::from_be_bytes` of the bytes from `i` on.
abbrev pub u16_at : ℕ → List ℕ → ℕ
u16_at i xs = byte i xs * 256 + byte (i + 1) xs

abbrev pub u32_at : ℕ → List ℕ → ℕ
u32_at i xs = u16_at i xs * 65536 + u16_at (i + 2) xs

abbrev pub high : ℕ → ℕ
high n = n / 256

abbrev pub low : ℕ → ℕ
low n = n % 256

-- The sum of the 16-bit words, and of a last byte before a zero.
abbrev pub add_words : ℕ → List ℕ → ℕ
add_words sum [] = sum
add_words sum (x ∷ []) = (sum + x * 256) % 2 ^ 32
add_words sum (x ∷ y ∷ xs) = add_words ((sum + (x * 256 + y)) % 2 ^ 32) xs

-- The loop that folds the carries: four rounds are enough for 32 bits.
abbrev pub fold_carries : ℕ → ℕ → ℕ
fold_carries zero sum = sum
fold_carries (suc fuel) sum =
    let rest = fold_carries fuel (sum % 65536 + sum / 65536) in
    if sum / 65536 == 0 then sum else rest

unfoldable pub checksum : List ℕ → ℕ
checksum bytes = 65535 - fold_carries 4 (add_words 0 bytes) % 65536

abbrev pub octets : Ipv4Addr → List ℕ → List ℕ
octets x rest = x.a ∷ x.b ∷ x.c ∷ x.d ∷ rest

abbrev pub pseudo : Ipv4Addr → Ipv4Addr → ℕ → List ℕ → List ℕ
pseudo source destination protocol bytes = octets source (
    octets destination
      (0 ∷ protocol ∷ high (length bytes % 65536) ∷ low (length bytes % 65536) ∷ bytes))

unfoldable pub transport_checksum : Ipv4Addr → Ipv4Addr → ℕ → List ℕ → ℕ
unfolding checksum
transport_checksum source destination protocol bytes =
    checksum (pseudo source destination protocol bytes)

abbrev pub fail_when : Bool → PacketError → Result PacketError (Unit {0})
fail_when b e = if b then err e else ok tt

-- The segment whose header has this length.
abbrev pub segment_at : Ipv4Addr → Ipv4Addr → ℕ → List ℕ → TcpSegment
segment_at source destination header_len bytes = record {
  source = source;
  destination = destination;
  source_port = u16_at 0 bytes;
  destination_port = u16_at 2 bytes;
  sequence = u32_at 4 bytes;
  acknowledgement = u32_at 8 bytes;
  window = u16_at 14 bytes;
  flags = flags_of (byte 13 bytes);
  payload = drop header_len bytes;
}

unfoldable pub parse_tcp : Ipv4Addr → Ipv4Addr → List ℕ → Result PacketError TcpSegment
unfolding transport_checksum
parse_tcp source destination bytes =
    let header_len = byte 12 bytes / 16 * 4 in
    fail_when (ltb (length bytes) 20) truncated
    also fail_when (ltb header_len 20 || ltb (length bytes) header_len) invalid_length
    also fail_when (u16_at 0 bytes == 0 || u16_at 2 bytes == 0) invalid_port
    also fail_when (not (transport_checksum source destination 6 bytes == 0))
        invalid_transport_checksum
    also ok (segment_at source destination header_len bytes)

-- The datagram of these bytes, of which the second list has those of its length.
abbrev pub datagram_at : Ipv4Addr → Ipv4Addr → List ℕ → List ℕ → UdpDatagram
datagram_at source destination bytes sized = record {
  source = source;
  destination = destination;
  source_port = u16_at 0 bytes;
  destination_port = u16_at 2 bytes;
  payload = drop 8 sized;
}

unfoldable pub parse_udp : Ipv4Addr → Ipv4Addr → List ℕ → Result PacketError UdpDatagram
unfolding transport_checksum
parse_udp source destination bytes =
    let size = u16_at 4 bytes in
    fail_when (ltb (length bytes) 8) truncated
    also fail_when (u16_at 0 bytes == 0 || u16_at 2 bytes == 0) invalid_port
    also fail_when (ltb size 8 || ltb (length bytes) size) invalid_length
    also fail_when
        (not (u16_at 6 bytes == 0)
          && not (transport_checksum source destination 17 (take size bytes) == 0))
        invalid_transport_checksum
    also ok (datagram_at source destination bytes (take size bytes))

abbrev pub parse_icmp : Ipv4Addr → Ipv4Addr → List ℕ → Result PacketError IcmpPacket
parse_icmp source destination payload =
    fail_when (ltb (length payload) 4) truncated
    also ok (record {
      source = source;
      destination = destination;
      message_type = byte 0 payload;
      code = byte 1 payload;
    })

-- `match packet[9]`
unfoldable pub parse_payload :
    ℕ → Ipv4Addr → Ipv4Addr → List ℕ → Result PacketError ClassifiedPacket
unfolding parse_tcp parse_udp
parse_payload protocol source destination payload =
    if protocol == 6
    then and_then (parse_tcp source destination payload) (λ p. ok (tcp p))
    else if protocol == 17
    then and_then (parse_udp source destination payload) (λ p. ok (udp p))
    else if protocol == 1
    then and_then (parse_icmp source destination payload) (λ p. ok (icmp p))
    else ok (other protocol)

abbrev pub address_at : ℕ → List ℕ → Ipv4Addr
address_at i p = record { a = byte i p; b = byte (i + 1) p; c = byte (i + 2) p; d = byte (i + 3) p }

unfoldable pub classify_ipv4 : List ℕ → Result PacketError ClassifiedPacket
unfolding checksum parse_payload
classify_ipv4 packet =
    let header_len = byte 0 packet % 16 * 4 in
    let total_len = u16_at 2 packet in
    fail_when (ltb (length packet) 20) truncated
    also fail_when (ltb header_len 20 || ltb total_len header_len || ltb (length packet) total_len)
        invalid_length
    also fail_when (not (checksum (take header_len packet) == 0)) invalid_ipv4_checksum
    also fail_when (not (u16_at 6 packet % 16384 == 0)) fragmented
    also parse_payload (byte 9 packet) (address_at 12 packet) (address_at 16 packet)
        (drop header_len (take total_len packet))

-- `match version`
unfoldable pub classify : List ℕ → Result PacketError ClassifiedPacket
unfolding classify_ipv4
classify [] = err truncated
classify (x ∷ xs) =
    let packet = x ∷ xs in
    if x / 16 == 4
    then classify_ipv4 packet
    else if x / 16 == 6
    then (fail_when (ltb (length packet) 40) truncated
        also fail_when (ltb (length packet) (saturating_add 40 (u16_at 4 packet))) invalid_length
        also ok ipv6)
    else err invalid_version

-- The bytes that the writes of the code leave: the header of an IPv4 packet with this checksum.
abbrev pub ipv4_header : ℕ → ℕ → ℕ → Ipv4Addr → Ipv4Addr → List ℕ → List ℕ
ipv4_header sum total protocol source destination rest =
    69
    ∷ 0
    ∷ high total
    ∷ low total
    ∷ 0
    ∷ 0
    ∷ 64
    ∷ 0
    ∷ 64
    ∷ protocol
    ∷ high sum
    ∷ low sum
    ∷ octets source (octets destination rest)

abbrev pub be_u32 : ℕ → List ℕ → List ℕ
be_u32 n rest = high (n / 65536) ∷ low (n / 65536) ∷ high (n % 65536) ∷ low (n % 65536) ∷ rest

-- The segment with this checksum.
abbrev pub tcp_bytes : ℕ → TcpSegment → List ℕ
tcp_bytes sum s =
    high s.source_port
    ∷ low s.source_port
    ∷ high s.destination_port
    ∷ low s.destination_port
    ∷ be_u32 s.sequence (
        be_u32 s.acknowledgement (
          80
          ∷ bits s.flags
          ∷ high s.window
          ∷ low s.window
          ∷ high sum
          ∷ low sum
          ∷ 0
          ∷ 0
          ∷ s.payload))

abbrev pub udp_bytes : ℕ → UdpDatagram → List ℕ
udp_bytes sum s =
    high s.source_port
    ∷ low s.source_port
    ∷ high s.destination_port
    ∷ low s.destination_port
    ∷ high (8 + length s.payload)
    ∷ low (8 + length s.payload)
    ∷ high sum
    ∷ low sum
    ∷ s.payload

-- The header's checksum is that of the header whose checksum is zero.
unfoldable pub build_ipv4 : ℕ → ℕ → Ipv4Addr → Ipv4Addr → List ℕ → List ℕ
unfolding checksum
build_ipv4 total protocol source destination rest =
    ipv4_header (checksum (ipv4_header 0 total protocol source destination [])) total protocol
      source destination rest

-- The arguments of the code are the fields of a segment.
unfoldable pub build_tcp_packet : TcpSegment → List ℕ
unfolding build_ipv4 transport_checksum
build_tcp_packet s =
    let total_len = saturating_add 40 (length s.payload) in
    if ltb 65535 total_len
    then []
    else build_ipv4 total_len 6 s.source s.destination
        (tcp_bytes (transport_checksum s.source s.destination 6 (tcp_bytes 0 s)) s)

unfoldable pub build_udp_packet : UdpDatagram → List ℕ
unfolding build_ipv4 transport_checksum
build_udp_packet s =
    let udp_len = saturating_add 8 (length s.payload) in
    let total_len = saturating_add 20 udp_len in
    if ltb 65535 total_len
    then []
    else build_ipv4 total_len 17 s.source s.destination
        (udp_bytes (transport_checksum s.source s.destination 17 (udp_bytes 0 s)) s)
