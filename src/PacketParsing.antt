-- ===== src/PacketParsing.antt =====
-- ports/packet_parsing/packet_parsing.c: `parse_packet`, which prints the headers of a frame. The
-- file thread_parsing/threaded_project/parser.c has the same function. The lines printed are the
-- result; a field is read wherever its header should stand, also behind the end of the data.
pub mod Agreement
pub mod Overread
mod Tests
use dpdk_starter.Base.{ℕ, zero, suc, ◌+◌, ◌*◌, ◌%◌, List, [], ◌∷◌, ◌==◌, if◌then◌else◌, u16}
use dpdk_starter.Packet.{
  Mbuf, be16, be32, ether_hdr_size, vlan_hdr_size, ipv6_hdr_size, ether_type_ipv4, ether_type_vlan,
  ether_type_ipv6, ipproto_icmp, ipproto_tcp, ipproto_udp,
}

-- The bytes that a line shows: a MAC address, an IPv4 address, an IPv6 address.
abbrev pub bytes_at : Mbuf → ℕ → ℕ → List ℕ
bytes_at m zero i = []
bytes_at m (suc n) i = m.byte i ∷ bytes_at m n (i + 1)

pub data Line : Type 0 where
  ethernet : List ℕ → List ℕ → Line
  vlan_tag : ℕ → Line
  ipv4 : List ℕ → List ℕ → Line
  ipv6 : List ℕ → List ℕ → Line
  udp : ℕ → ℕ → Line
  tcp : ℕ → ℕ → ℕ → ℕ → ℕ → Line
  tcp_ports : ℕ → ℕ → Line
  icmp : ℕ → ℕ → Line

-- The three cases of `proto` behind an IPv4 header, with the L4 header at `offset`.
unfoldable pub parse_ipv4_l4 : Mbuf → ℕ → ℕ → List Line
parse_ipv4_l4 m proto offset =
    if proto == ipproto_udp
    then udp (be16 m offset) (be16 m (offset + 2)) ∷ []
    else if proto == ipproto_tcp
    then tcp (be16 m offset) (be16 m (offset + 2)) (be32 m (offset + 4)) (be32 m (offset + 8))
        (m.byte (offset + 13))
      ∷ []
    else if proto == ipproto_icmp
    then icmp (m.byte offset) (m.byte (offset + 1)) ∷ []
    else []

unfoldable pub parse_ipv4 : Mbuf → ℕ → List Line
parse_ipv4 m offset =
    ipv4 (bytes_at m 4 (offset + 12)) (bytes_at m 4 (offset + 16))
    ∷ parse_ipv4_l4 m (m.byte (offset + 9)) (u16 (offset + m.byte offset % 16 * 4))

unfoldable pub parse_ipv6_l4 : Mbuf → ℕ → ℕ → List Line
parse_ipv6_l4 m proto offset =
    if proto == ipproto_udp
    then udp (be16 m offset) (be16 m (offset + 2)) ∷ []
    else if proto == ipproto_tcp
    then tcp_ports (be16 m offset) (be16 m (offset + 2)) ∷ []
    else []

unfoldable pub parse_ipv6 : Mbuf → ℕ → List Line
parse_ipv6 m offset =
    ipv6 (bytes_at m 16 (offset + 8)) (bytes_at m 16 (offset + 24))
    ∷ parse_ipv6_l4 m (m.byte (offset + 6)) (offset + ipv6_hdr_size)

-- `// L3: IPv4` and `// L3: IPv6`.
unfoldable pub parse_l3 : Mbuf → ℕ → ℕ → List Line
parse_l3 m eth_type offset =
    if eth_type == ether_type_ipv4
    then parse_ipv4 m offset
    else if eth_type == ether_type_ipv6
    then parse_ipv6 m offset
    else []

unfoldable pub parse_packet : Mbuf → List Line
parse_packet m =
    ethernet (bytes_at m 6 6) (bytes_at m 6 0)
    ∷ (if be16 m 12 == ether_type_vlan
        then vlan_tag (be16 m ether_hdr_size)
          ∷ parse_l3 m (be16 m (ether_hdr_size + 2)) (ether_hdr_size + vlan_hdr_size)
        else parse_l3 m (be16 m 12) ether_hdr_size)
