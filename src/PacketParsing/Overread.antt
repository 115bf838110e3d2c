-- ===== src/PacketParsing/Overread.antt =====
-- `parse_packet` has no test of the length.
use dpdk_starter.Base.{ℕ, ◌≤◌, ◌<◌, ◌≡◌, ◌≢◌, refl, arith}
use dpdk_starter.Packet.{Mbuf, be16, set_byte, ether_type_ipv4}
use dpdk_starter.PacketParsing.{parse_ipv4, parse_l3, parse_packet}

-- A packet of any length up to 33 bytes whose type is IPv4 has its last address byte read from
-- behind its data: changing the byte at offset 33, which is no byte of the packet, changes what is
-- printed.
pub parse_packet_overreads :
    (m : Mbuf) (v : ℕ)
    → m.data_len ≤ 33
    → be16 m 12 ≡ ether_type_ipv4
    → v ≢ m.byte 33
    → ((set_byte m 33 v).data_len ≡ m.data_len)
      × ((i : ℕ) → i < m.data_len → (set_byte m 33 v).byte i ≡ m.byte i)
      × (parse_packet (set_byte m 33 v) ≢ parse_packet m)
unfolding parse_packet parse_l3 parse_ipv4
parse_packet_overreads m v short t ne = (refl, (λ i h. ground arith), λ e. ground arith)
