-- ===== src/Acl/Tests.antt =====
-- The rules at concrete keys and packets, with the classifier that searches the list.
use dpdk_starter.Base.{[], ℕ, ◌≡◌, refl, List, ◌∷◌, ◌++◌, replicate, arith}
use dpdk_starter.Packet.{Mbuf, packet_of, IsBytes, packet_of-IsBytes}
use dpdk_starter.Acl.{Key}
use dpdk_starter.Acl.Best.{search_api}
use dpdk_starter.Acl.MultiRule
use dpdk_starter.Acl.DualRule
use dpdk_starter.Acl.L2fwd

abbrev dns_key : Key
dns_key = record { proto = 17; src_ip = 1; dst_ip = 2; src_port = 4000; dst_port = 53 }

dns_key-IsKey : MultiRule.IsKey dns_key
dns_key-IsKey = record {
  proto = omega arith;
  src_ip = omega arith;
  dst_ip = omega arith;
  src_port = omega arith;
  dst_port = omega arith;
}

pkt-IsKey : MultiRule.IsKey DualRule.pkt
pkt-IsKey = record {
  proto = omega arith;
  src_ip = omega arith;
  dst_ip = omega arith;
  src_port = omega arith;
  dst_port = omega arith;
}

-- A TCP packet from 172.17.166.200.
abbrev tcp_bytes : List ℕ
tcp_bytes =
    (replicate 12 0
      ++ (8 ∷ 0 ∷ 0x45 ∷ replicate 8 0)
      ++ (6 ∷ 0 ∷ 0 ∷ 172 ∷ 17 ∷ 166 ∷ 200 ∷ replicate 24 0))

abbrev tcp_frame : Mbuf
tcp_frame = packet_of tcp_bytes

tcp_frame-IsBytes : IsBytes tcp_frame
tcp_frame-IsBytes = packet_of-IsBytes tcp_bytes refl

l2fwd_acl_lem_example : L2fwd.handle_packet search_api tcp_frame ≡ L2fwd.transmit
l2fwd_acl_lem_example = L2fwd.l2fwd_acl_lem search_api tcp_frame tcp_frame-IsBytes

-- An SSDP search behind a VLAN tag.
abbrev ssdp_bytes : List ℕ
ssdp_bytes =
    replicate 12 0
    ++ (0x81 ∷ 0 ∷ 0 ∷ 5 ∷ 8 ∷ 0 ∷ 0x45 ∷ replicate 8 0)
    ++ (17 ∷ 0 ∷ 0 ∷ 10 ∷ 0 ∷ 0 ∷ 1 ∷ 239 ∷ 255 ∷ 255 ∷ 250 ∷ 0x80 ∷ 0 ∷ 7 ∷ 108 ∷ [])
