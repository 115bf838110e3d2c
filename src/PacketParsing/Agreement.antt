-- ===== src/PacketParsing/Agreement.antt =====
-- `parse_packet` and `classify_packet` of control_data_segregation/main.c read one format.
use dpdk_starter.Base.{
  ℕ, ◌+◌, ◌*◌, ◌%◌, ◌≡◌, ◌⊎◌, Bool, true, false, ◌||◌, List, [], ◌∷◌, u16, arith,
}
use dpdk_starter.Packet.{Mbuf, be16}
use dpdk_starter.PacketParsing.{
  Line, udp, tcp, icmp, parse_ipv4_l4, parse_ipv4, parse_l3, parse_packet,
}
use dpdk_starter.Segregation.Classify.{
  is_control_tcp_port, is_control_udp_port, classify_l4, classify_ipv4, classify_packet,
}

-- The last line that is printed, with its L4 header: what `classify_packet` would call control by it.
unfoldable pub is_control_line : Line → Bool
is_control_line (icmp t c) = true
is_control_line (udp s d) = is_control_udp_port d
is_control_line (tcp s d seq ack flags) = is_control_tcp_port d
is_control_line _ = false

unfoldable pub has_control_line : List Line → Bool
has_control_line [] = false
has_control_line (l ∷ ls) = is_control_line l || has_control_line ls

l4_agrees :
    (m : Mbuf) (proto offset : ℕ)
    → classify_l4 m proto offset ≡ true
    → (proto ≡ 89) ⊎ (has_control_line (parse_ipv4_l4 m proto offset) ≡ true)
unfolding classify_l4 parse_ipv4_l4 has_control_line is_control_line
l4_agrees m proto offset h = ground arith

l3_agrees :
    (m : Mbuf) (t offset : ℕ)
    → classify_ipv4 m t offset ≡ true
    → (m.byte (offset + 9) ≡ 89) ⊎ (has_control_line (parse_l3 m t offset) ≡ true)
unfolding classify_ipv4 parse_l3 parse_ipv4 has_control_line is_control_line
l3_agrees m t offset h =
    ground (arith, l4_agrees m (m.byte (offset + 9)) (u16 (offset + m.byte offset % 16 * 4)))

-- For every packet that `classify_packet` calls control, `parse_packet` prints an ICMP line, a UDP
-- line with a UDP control port as its destination, or a TCP line with a TCP control port as its
-- destination; unless byte 23 or byte 27, where a frame without or with a VLAN tag has its protocol,
-- is OSPF (89), which `parse_packet` does not know.
pub parse_packet-classify_packet :
    (m : Mbuf)
    → classify_packet m ≡ true
    → ((m.byte 23 ≡ 89) ⊎ (m.byte 27 ≡ 89)) ⊎ (has_control_line (parse_packet m) ≡ true)
unfolding classify_packet parse_packet has_control_line is_control_line
parse_packet-classify_packet m h =
    ground (arith, l3_agrees m (be16 m 12) 14, l3_agrees m (be16 m 16) 18)
