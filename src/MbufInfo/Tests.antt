-- ===== src/MbufInfo/Tests.antt =====
-- An IPv6 packet over Ethernet with ICMP, as a driver that fills `packet_type` gives it.
use dpdk_starter.Base.{◌≡◌, refl, List, [], ◌∷◌}
use dpdk_starter.MbufInfo.{
  ipv6_ext, unknown_l4, l3_to_str, l4_to_str, Info, l3_type, l4_type, print_mbuf_info,
}
use dpdk_starter.Packet.{packet_of}
use dpdk_starter.PortLoops.Echo.{idle}
use dpdk_starter.MbufInfo.Loop.{Packet, contents, print_round, print_rounds}

abbrev icmp_v6 : Info
icmp_v6 = record {
  port = 0;
  pkt_len = 118;
  data_len = 118;
  nb_segs = 1;
  rss = 0;
  vlan_tci = 0;
  packet_type = 0x541;
}

ipv6_label : l3_to_str (l3_type icmp_v6) ≡ ipv6_ext
ipv6_label = refl

icmp_label : l4_to_str (l4_type icmp_v6) ≡ unknown_l4
icmp_label = refl

-- The driver takes one of two packets.
abbrev two_packets : List (Packet)
two_packets =
    record { address = 7; info = icmp_v6; frame = packet_of (1 ∷ 2 ∷ []) }
    ∷ record { address = 8; info = icmp_v6; frame = packet_of (3 ∷ []) }
    ∷ []

two_shown : contents (print_rounds idle ((two_packets, 1) ∷ [])).1 ≡ (1 ∷ 2 ∷ []) ∷ (3 ∷ []) ∷ []
unfolding print_rounds print_round print_mbuf_info
two_shown = refl
