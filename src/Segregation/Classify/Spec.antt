-- ===== src/Segregation/Classify/Spec.antt =====
-- What `classify_packet` calls control, described by the layout of the frame.
use dpdk_starter.Base.{ℕ, ◌+◌, ◌*◌, ◌%◌, ◌≤◌, ◌≡◌, ◌↔◌, ◌⊎◌, inl, inr, true, arith, u16}
use dpdk_starter.Packet.{Mbuf, be16, ether_type_ipv4, ether_type_vlan}
use dpdk_starter.Segregation.Classify.{
  is_control_tcp_port, is_control_udp_port, classify_l4, classify_ipv4, classify_packet,
}

-- An L4 header of `size` bytes fits at `offset`.
abbrev Fits : Mbuf → ℕ → ℕ → Type 0
Fits m offset size = offset + size ≤ m.data_len

abbrev IsTcpControlPort : ℕ → Type 0
IsTcpControlPort p = (p ≡ 22) ⊎ ((p ≡ 53) ⊎ ((p ≡ 179) ⊎ (p ≡ 389)))

abbrev IsUdpControlPort : ℕ → Type 0
IsUdpControlPort p = (p ≡ 53) ⊎ ((p ≡ 67) ⊎ ((p ≡ 68) ⊎ ((p ≡ 123) ⊎ (p ≡ 161))))

-- ICMP, OSPF, and UDP or TCP to a control port with its header whole.
abbrev IsControlL4 : Mbuf → ℕ → ℕ → Type 0
IsControlL4 m proto offset =
    (proto ≡ 1)
    ⊎ ((proto ≡ 89)
        ⊎ (((proto ≡ 17) × Fits m offset 8 × IsUdpControlPort (be16 m (offset + 2)))
            ⊎ ((proto ≡ 6) × Fits m offset 20 × IsTcpControlPort (be16 m (offset + 2)))))

-- An IPv4 header of at least 20 bytes at `offset`, and control traffic behind it.
abbrev IsControlAt : Mbuf → ℕ → Type 0
IsControlAt m offset =
    Fits m offset 20 × IsControlL4 m (m.byte (offset + 9)) (u16 (offset + m.byte offset % 16 * 4))

-- A frame with at most one VLAN tag.
abbrev pub IsControl : Mbuf → Type 0
IsControl m =
    ((be16 m 12 ≡ ether_type_ipv4) × IsControlAt m 14)
    ⊎ ((be16 m 12 ≡ ether_type_vlan) × (be16 m 16 ≡ ether_type_ipv4) × IsControlAt m 18)

l4_sound : (m : Mbuf) (p o : ℕ) → classify_l4 m p o ≡ true → IsControlL4 m p o
unfolding classify_l4 is_control_tcp_port is_control_udp_port
l4_sound m p o h = ground arith

l4_complete : (m : Mbuf) (p o : ℕ) → IsControlL4 m p o → classify_l4 m p o ≡ true
unfolding classify_l4 is_control_tcp_port is_control_udp_port
l4_complete m p o h = ground arith

ipv4_sound :
    (m : Mbuf) (t o : ℕ) → classify_ipv4 m t o ≡ true → (t ≡ ether_type_ipv4) × IsControlAt m o
unfolding classify_ipv4
ipv4_sound m t o h = ground (arith, l4_sound m (m.byte (o + 9)) (u16 (o + m.byte o % 16 * 4)))

ipv4_complete :
    (m : Mbuf) (t o : ℕ) → t ≡ ether_type_ipv4 → IsControlAt m o → classify_ipv4 m t o ≡ true
unfolding classify_ipv4
ipv4_complete m t o e h =
    ground (arith, l4_complete m (m.byte (o + 9)) (u16 (o + m.byte o % 16 * 4)) h.1)

packet_sound : (m : Mbuf) → classify_packet m ≡ true → IsControl m
unfolding classify_packet
packet_sound m h = ground (arith, ipv4_sound m (be16 m 12) 14, ipv4_sound m (be16 m 16) 18)

packet_complete : (m : Mbuf) → IsControl m → classify_packet m ≡ true
unfolding classify_packet
packet_complete m (inl h) = ground (arith, ipv4_complete m (be16 m 12) 14 h.0 h.1)
packet_complete m (inr h) = ground (arith, ipv4_complete m (be16 m 16) 18 h.1 h.2)

-- A packet is classified as control exactly when it is an IPv4 frame, with no VLAN tag or with one,
-- that holds 20 bytes or more from the start of its IPv4 header on, and its protocol is ICMP or OSPF, or,
-- behind as much as the header length field says, a whole UDP header with the destination port 53,
-- 67, 68, 123 or 161, or 20 bytes of a TCP header with 22, 53, 179 or 389.
pub classify_packet_iff : (m : Mbuf) → (classify_packet m ≡ true) ↔ IsControl m
classify_packet_iff m = (packet_sound m, packet_complete m)
