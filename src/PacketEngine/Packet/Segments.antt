-- ===== src/PacketEngine/Packet/Segments.antt =====
-- crates/packet-engine/src/packet.rs: a segment and a datagram with their checksums are parsed to what they hold.
use vpn_ne_vpn.Prelude.{
  ℕ, ◌+◌, ◌*◌, ◌/◌, ◌%◌, ◌≤◌, ◌<◌, ◌≡◌, ap, ◌∙◌, Bool, true, false, not, ◌||◌, ltb, ◌==◌, ok, List,
  length, arith,
}
use vpn_ne_vpn.Prelude.Bytes.{AllBytes}
use vpn_ne_vpn.Prelude.Checks.{also_passes, unless_passes}
use vpn_ne_vpn.PacketEngine.Packet.{
  Ipv4Addr, TcpFlags, TcpSegment, bit, bits, flags_of, truncated, invalid_length,
  invalid_transport_checksum, invalid_port, high, low, pseudo, transport_checksum, parse_tcp,
  segment_at, tcp_bytes,
}
use vpn_ne_vpn.PacketEngine.Packet.Checksum.{words, words-le, checksum-zero, checksum-le}

-- The ranges that the types of the code fix.
pub record IsAddress (x : Ipv4Addr) : Type 0 where
  pub a : x.a < 256
  pub b : x.b < 256
  pub c : x.c < 256
  pub d : x.d < 256

-- A segment that fits a packet, between ports that are not zero.
pub record IsSegment (s : TcpSegment) : Type 0 where
  pub source : IsAddress s.source
  pub destination : IsAddress s.destination
  pub from : (1 ≤ s.source_port) × (s.source_port < 65536)
  pub to : (1 ≤ s.destination_port) × (s.destination_port < 65536)
  pub sequence : s.sequence < 4294967296
  pub acknowledgement : s.acknowledgement < 4294967296
  pub window : s.window < 65536
  pub payload : AllBytes s.payload
  pub size : length s.payload + 40 ≤ 65535

bit-le : (b : Bool) → bit b ≤ 1
bit-le true = omega arith
bit-le false = omega arith

has_bit-bit : (b : Bool) (n : ℕ) → n % 2 ≡ bit b → not (n % 2 == 0) ≡ b
has_bit-bit true n h = rw h
has_bit-bit false n h = rw h

flags_of-bits : (f : TcpFlags) → flags_of (bits f) ≡ f
flags_of-bits f =
    let one = bit-le f.fin in
    let two = bit-le f.syn in
    let three = bit-le f.rst in
    let four = bit-le f.psh in
    let five = bit-le f.ack in
    cc (
      has_bit-bit f.fin (bits f / 1) (omega arith),
      has_bit-bit f.syn (bits f / 2) (omega arith),
      has_bit-bit f.rst (bits f / 4) (omega arith),
      has_bit-bit f.psh (bits f / 8) (omega arith),
      has_bit-bit f.ack (bits f / 16) (omega arith),
    )

-- The words before the bytes in what the transport checksum is computed of.
abbrev pseudo_words : Ipv4Addr → Ipv4Addr → ℕ → ℕ → ℕ
pseudo_words x y protocol size =
    (x.a * 256 + x.b)
    + (x.c * 256 + x.d)
    + (y.a * 256 + y.b)
    + (y.c * 256 + y.d)
    + protocol
    + size % 65536

words-pseudo :
    (x y : Ipv4Addr) (protocol : ℕ) (bytes : List ℕ)
    → words (pseudo x y protocol bytes) ≡ pseudo_words x y protocol (length bytes) + words bytes
words-pseudo x y protocol bytes = omega arith

pseudo_words-le :
    (x y : Ipv4Addr) (protocol size : ℕ)
    → IsAddress x
    → IsAddress y
    → protocol < 256
    → pseudo_words x y protocol size ≤ 400000
pseudo_words-le x y protocol size u v p = omega (arith, u.a, u.b, u.c, u.d, v.a, v.b, v.c, v.d)

-- Bytes that hold their checksum, where the words of the same bytes with a zero in its place fit.
pub sealed-zero :
    (x y : Ipv4Addr) (protocol sum : ℕ) (zeroed filled : List ℕ)
    → IsAddress x
    → IsAddress y
    → protocol < 256
    → length filled ≡ length zeroed
    → words zeroed < 4294000000
    → words filled ≡ words zeroed + sum
    → sum ≡ transport_checksum x y protocol zeroed
    → transport_checksum x y protocol filled ≡ 0
unfolding transport_checksum
sealed-zero x y protocol sum zeroed filled u v p l small w c =
    let base = pseudo_words-le x y protocol (length zeroed) u v p in
    let before = words-pseudo x y protocol zeroed in
    let after =
      words-pseudo x y protocol filled ∙ ap (λ n. pseudo_words x y protocol n + words filled) l in
    let fits : words (pseudo x y protocol zeroed) < 4294967296 = omega (arith, base, before) in
    let top = checksum-le (pseudo x y protocol zeroed) fits in
    checksum-zero (pseudo x y protocol zeroed) (pseudo x y protocol filled) fits
      (omega (arith, base, after, w, c, top)) (omega (arith, before, after, w, c))

pub words-tcp_bytes :
    (sum : ℕ) (s : TcpSegment) → words (tcp_bytes sum s) ≡ words (tcp_bytes 0 s) + sum
words-tcp_bytes sum s = omega arith

pub words-tcp_bytes-lt : (s : TcpSegment) → IsSegment s → words (tcp_bytes 0 s) < 4294000000
words-tcp_bytes-lt s v =
    let payload = words-le s.payload v.payload in
    omega (
      arith,
      payload,
      v.size,
      v.from.1,
      v.to.1,
      v.sequence,
      v.acknowledgement,
      v.window,
      bit-le s.flags.fin,
      bit-le s.flags.syn,
      bit-le s.flags.rst,
      bit-le s.flags.psh,
      bit-le s.flags.ack,
    )

pub u16-high-low : (n : ℕ) → n < 65536 → high n * 256 + low n ≡ n
u16-high-low n h = omega arith

u32-be_u32 :
    (n : ℕ)
    → n < 4294967296
    → (high (n / 65536) * 256 + low (n / 65536)) * 65536
        + (high (n % 65536) * 256 + low (n % 65536))
      ≡ n
u32-be_u32 n h = omega arith

pub not_below : (m n : ℕ) → n ≤ m → ltb m n ≡ false
not_below m n h = ground arith

pub is_port :
    (n m : ℕ)
    → 1 ≤ n
    → n < 65536
    → 1 ≤ m
    → m < 65536
    → (high n * 256 + low n == 0 || high m * 256 + low m == 0) ≡ false
is_port n m a b c d = ground (arith, u16-high-low n b, u16-high-low m d)

segment_at-tcp_bytes :
    (s : TcpSegment) (sum : ℕ)
    → IsSegment s
    → segment_at s.source s.destination 20 (tcp_bytes sum s) ≡ s
segment_at-tcp_bytes s sum v = cc (
  u16-high-low s.source_port v.from.1,
  u16-high-low s.destination_port v.to.1,
  u32-be_u32 s.sequence v.sequence,
  u32-be_u32 s.acknowledgement v.acknowledgement,
  u16-high-low s.window v.window,
  flags_of-bits s.flags,
)

pub parse_tcp-tcp_bytes :
    (s : TcpSegment) (sum : ℕ)
    → IsSegment s
    → transport_checksum s.source s.destination 6 (tcp_bytes sum s) ≡ 0
    → parse_tcp s.source s.destination (tcp_bytes sum s) ≡ ok s
unfolding parse_tcp
parse_tcp-tcp_bytes s sum v z =
    let long : ltb (length (tcp_bytes sum s)) 20 ≡ false = not_below _ 20 (omega arith) in
    also_passes (unless_passes truncated long) (
      also_passes (unless_passes invalid_length long) (
        also_passes
          (unless_passes invalid_port
            (is_port s.source_port s.destination_port v.from.0 v.from.1 v.to.0 v.to.1))
          (also_passes (unless_passes invalid_transport_checksum (ap (λ n. not (n == 0)) z))
            (ap ok (segment_at-tcp_bytes s sum v)))))
