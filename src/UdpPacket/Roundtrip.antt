-- ===== src/UdpPacket/Roundtrip.antt =====
-- What readers of a built packet see.
use dpdk_starter.Base.{ℕ, ◌+◌, ◌≡◌, refl, false, [], ◌∷◌, length}
use dpdk_starter.Packet.{Mbuf, be16}
use dpdk_starter.PacketParsing.{
  ethernet, ipv4, udp, parse_ipv4_l4, parse_ipv4, parse_l3, parse_packet, bytes_at,
}
use dpdk_starter.Segregation.Classify.{
  is_control_udp_port, classify_l4, classify_ipv4, classify_packet,
}
use dpdk_starter.UdpPacket.{payload, broadcast, src_mac, build_udp_packet}

module _ (cksum : Mbuf → ℕ) where
  -- Whatever the mbuf held before and whatever the checksum function is, `parse_packet` finds in the
  -- built packet the broadcast address, the source's MAC address, 127.0.0.1 as both IPv4 addresses
  -- and the UDP ports 1234 and 5678, and no other header; and `classify_packet` calls it data.
  pub parse_packet-build_udp_packet :
      (m : Mbuf)
      → (parse_packet (build_udp_packet cksum m)
          ≡ ethernet src_mac broadcast
            ∷ ipv4 (127 ∷ 0 ∷ 0 ∷ 1 ∷ []) (127 ∷ 0 ∷ 0 ∷ 1 ∷ [])
            ∷ udp 1234 5678
            ∷ [])
        × (classify_packet (build_udp_packet cksum m) ≡ false)
  unfolding parse_packet parse_l3 parse_ipv4 parse_ipv4_l4 build_udp_packet classify_packet
      classify_ipv4 classify_l4 is_control_udp_port
  parse_packet-build_udp_packet m = (refl, refl)

  -- The length fields of the built packet agree: the IPv4 total length with the length of the data
  -- behind the Ethernet header, the UDP length with that behind the IPv4 header, and the payload
  -- stands behind the UDP header and ends with the data.
  pub build_udp_packet-lengths :
      (m : Mbuf)
      → let p = build_udp_packet cksum m in
        (14 + be16 p 16 ≡ p.data_len)
        × (34 + be16 p 38 ≡ p.data_len)
        × (42 + length payload ≡ p.data_len)
        × (bytes_at p (length payload) 42 ≡ payload)
  unfolding build_udp_packet
  build_udp_packet-lengths m = (refl, refl, refl, refl)
