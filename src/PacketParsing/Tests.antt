-- ===== src/PacketParsing/Tests.antt =====
-- The theorems on `parse_packet` at concrete frames.
use dpdk_starter.Base.{◌≡◌, ◌⊎◌, refl, true, [], ◌∷◌, ◌++◌, replicate}
use dpdk_starter.Packet.{Mbuf, packet_of}
use dpdk_starter.PacketParsing.{parse_packet}
use dpdk_starter.PacketParsing.Agreement.{has_control_line, parse_packet-classify_packet}
use dpdk_starter.Segregation.Classify.{
  is_control_udp_port, classify_l4, classify_ipv4, classify_packet,
}

-- A UDP datagram to port 53.
abbrev dns : Mbuf
dns = packet_of (
    replicate 12 0
    ++ (8 ∷ 0 ∷ 0x45 ∷ replicate 8 0)
    ++ (17 ∷ replicate 10 0)
    ++ (0 ∷ 0 ∷ 0 ∷ 53 ∷ 0 ∷ 8 ∷ 0 ∷ 0 ∷ []))

dns_is_control : classify_packet dns ≡ true
unfolding classify_packet classify_ipv4 classify_l4 is_control_udp_port
dns_is_control = refl

parse_packet-classify_packet_example :
    ((dns.byte 23 ≡ 89) ⊎ (dns.byte 27 ≡ 89)) ⊎ (has_control_line (parse_packet dns) ≡ true)
parse_packet-classify_packet_example = parse_packet-classify_packet dns dns_is_control

-- The first 20 bytes of it.
abbrev short : Mbuf
short = record dns { data_len = 20 }
