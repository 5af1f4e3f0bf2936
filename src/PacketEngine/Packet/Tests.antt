-- ===== src/PacketEngine/Packet/Tests.antt =====
-- A small segment and a small datagram.
use vpn_ne_vpn.Prelude.{◌≡◌, refl, true, false, ok, [], ◌∷◌, arith}
use vpn_ne_vpn.PacketEngine.Packet.{
  Ipv4Addr, TcpSegment, UdpDatagram, tcp, udp, classify, checksum, transport_checksum, build_ipv4,
  build_tcp_packet, build_udp_packet,
}
use vpn_ne_vpn.PacketEngine.Packet.Segments.{IsAddress}
use vpn_ne_vpn.PacketEngine.Packet.RoundTrip.{classify-build_tcp_packet, classify-build_udp_packet}

abbrev client : Ipv4Addr
client = record { a = 10; b = 0; c = 0; d = 2 }

abbrev server : Ipv4Addr
server = record { a = 198; b = 18; c = 0; d = 1 }

abbrev segment : TcpSegment
segment = record {
  source = server;
  destination = client;
  source_port = 443;
  destination_port = 50000;
  sequence = 4000000000;
  acknowledgement = 7;
  window = 65535;
  flags = record { fin = false; syn = true; rst = false; psh = false; ack = true };
  payload = 1 ∷ 2 ∷ 3 ∷ [];
}

abbrev datagram : UdpDatagram
datagram = record {
  source = server;
  destination = client;
  source_port = 53;
  destination_port = 50000;
  payload = 255 ∷ [];
}

-- The checksums that the code writes.
build_tcp_packet-segment :
    build_tcp_packet segment
    ≡ 69 ∷ 0 ∷ 0 ∷ 43 ∷ 0 ∷ 0 ∷ 64 ∷ 0 ∷ 64 ∷ 6 ∷ 106 ∷ 184 ∷ 198 ∷ 18 ∷ 0 ∷ 1 ∷ 10 ∷ 0 ∷ 0 ∷ 2 ∷ 1
      ∷ 187 ∷ 195 ∷ 80 ∷ 238 ∷ 107 ∷ 40 ∷ 0 ∷ 0 ∷ 0 ∷ 0 ∷ 7 ∷ 80 ∷ 18 ∷ 255 ∷ 255 ∷ 0 ∷ 58 ∷ 0 ∷ 0
      ∷ 1 ∷ 2 ∷ 3 ∷ []
unfolding build_tcp_packet build_ipv4 checksum transport_checksum
build_tcp_packet-segment = refl

client-IsAddress : IsAddress client
client-IsAddress = record { a = omega arith; b = omega arith; c = omega arith; d = omega arith }

server-IsAddress : IsAddress server
server-IsAddress = record { a = omega arith; b = omega arith; c = omega arith; d = omega arith }

classify-build_tcp_packet_example : classify (build_tcp_packet segment) ≡ ok (tcp segment)
classify-build_tcp_packet_example = classify-build_tcp_packet segment (record {
  source = server-IsAddress;
  destination = client-IsAddress;
  from = (omega arith, omega arith);
  to = (omega arith, omega arith);
  sequence = omega arith;
  acknowledgement = omega arith;
  window = omega arith;
  payload = (omega arith, (omega arith, (omega arith, tt)));
  size = omega arith;
})

classify-build_udp_packet_example : classify (build_udp_packet datagram) ≡ ok (udp datagram)
classify-build_udp_packet_example = classify-build_udp_packet datagram (record {
  source = server-IsAddress;
  destination = client-IsAddress;
  from = (omega arith, omega arith);
  to = (omega arith, omega arith);
  payload = (omega arith, tt);
  size = omega arith;
})
