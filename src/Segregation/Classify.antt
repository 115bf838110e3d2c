-- ===== src/Segregation/Classify.antt =====
-- control_data_segregation/main.c: `is_control_tcp_port`, `is_control_udp_port`, `classify_packet`.
-- A port argument is the host-order value; `true` stands for the result 1 (control).
pub mod Bounds
pub mod Spec
use dpdk_starter.Base.{
  ℕ, ◌+◌, ◌*◌, ◌%◌, Bool, true, false, not, ◌||◌, ltb, ◌==◌, if◌then◌else◌, u16,
}
use dpdk_starter.Packet.{
  Mbuf, be16, ether_hdr_size, vlan_hdr_size, ipv4_hdr_size, udp_hdr_size, tcp_hdr_size,
  ether_type_ipv4, ether_type_vlan, ipproto_icmp, ipproto_tcp, ipproto_udp,
}

unfoldable pub is_control_tcp_port : ℕ → Bool
is_control_tcp_port port = port == 22 || port == 53 || port == 179 || port == 389

unfoldable pub is_control_udp_port : ℕ → Bool
is_control_udp_port port = port == 53 || port == 67 || port == 68 || port == 123 || port == 161

-- The tests from `/* ICMP = control */` on: `offset` is that behind the IPv4 header.
unfoldable pub classify_l4 : Mbuf → ℕ → ℕ → Bool
classify_l4 m proto offset =
    if proto == ipproto_icmp
    then true
    else if proto == 89
    then true
    else if proto == ipproto_udp
    then if ltb m.data_len (offset + udp_hdr_size)
      then false
      else is_control_udp_port (be16 m (offset + 2))
    else if proto == ipproto_tcp
    then if ltb m.data_len (offset + tcp_hdr_size)
      then false
      else is_control_tcp_port (be16 m (offset + 2))
    else false

-- From the test of `eth_type` on, with the IPv4 header at `offset`.
unfoldable pub classify_ipv4 : Mbuf → ℕ → ℕ → Bool
classify_ipv4 m eth_type offset =
    if not (eth_type == ether_type_ipv4)
    then false
    else if ltb m.data_len (offset + ipv4_hdr_size)
    then false
    else classify_l4 m (m.byte (offset + 9)) (u16 (offset + m.byte offset % 16 * 4))

unfoldable pub classify_packet : Mbuf → Bool
classify_packet m =
    if ltb m.data_len ether_hdr_size
    then false
    else if be16 m 12 == ether_type_vlan
    then if ltb m.data_len (ether_hdr_size + vlan_hdr_size)
      then false
      else classify_ipv4 m (be16 m (ether_hdr_size + 2)) (ether_hdr_size + vlan_hdr_size)
    else classify_ipv4 m (be16 m 12) ether_hdr_size
