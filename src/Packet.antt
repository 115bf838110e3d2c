-- ===== src/Packet.antt =====
-- The packet memory that every program reads (struct rte_mbuf and the header structs of the C
-- sources): `data_len` bytes of data, and whatever lies in memory behind them.
use dpdk_starter.Base.{
  ltb, arith, Bool, true, false, ◌&&◌, ◌≡◌, ℕ, zero, suc, ◌+◌, ◌*◌, ◌/◌, ◌%◌, ◌<◌, List, [], ◌∷◌,
  length, ◌==◌, if◌then◌else◌,
}

-- `byte i` is the byte at `rte_pktmbuf_mtod(m, uint8_t *) + i`; a read at `i` not below `data_len`
-- returns what memory holds there.
pub record Mbuf : Type 0 where
  pub data_len : ℕ
  pub byte : ℕ → ℕ

-- `rte_be_to_cpu_16` and `rte_be_to_cpu_32` of a field at an offset.
abbrev pub be16 : Mbuf → ℕ → ℕ
be16 m i = m.byte i * 256 + m.byte (i + 1)

abbrev pub be32 : Mbuf → ℕ → ℕ
be32 m i = be16 m i * 65536 + be16 m (i + 2)

-- A store of a byte, and of `rte_cpu_to_be_16(v)` and `rte_cpu_to_be_32(v)` at an offset.
abbrev pub set_byte : Mbuf → ℕ → ℕ → Mbuf
set_byte m i v = record m { byte = λ j. if j == i then v else m.byte j }

abbrev pub set_be16 : Mbuf → ℕ → ℕ → Mbuf
set_be16 m i v = set_byte (set_byte m i (v / 256 % 256)) (i + 1) (v % 256)

abbrev pub set_be32 : Mbuf → ℕ → ℕ → Mbuf
set_be32 m i v = set_be16 (set_be16 m i (v / 65536)) (i + 2) v

-- sizeof of the header structs
abbrev pub ether_hdr_size : ℕ
ether_hdr_size = 14

abbrev pub vlan_hdr_size : ℕ
vlan_hdr_size = 4

abbrev pub ipv4_hdr_size : ℕ
ipv4_hdr_size = 20

abbrev pub ipv6_hdr_size : ℕ
ipv6_hdr_size = 40

abbrev pub udp_hdr_size : ℕ
udp_hdr_size = 8

abbrev pub tcp_hdr_size : ℕ
tcp_hdr_size = 20

abbrev pub icmp_hdr_size : ℕ
icmp_hdr_size = 8

-- RTE_ETHER_TYPE_* and IPPROTO_*
abbrev pub ether_type_ipv4 : ℕ
ether_type_ipv4 = 0x0800

abbrev pub ether_type_vlan : ℕ
ether_type_vlan = 0x8100

abbrev pub ether_type_ipv6 : ℕ
ether_type_ipv6 = 0x86dd

abbrev pub ipproto_icmp : ℕ
ipproto_icmp = 1

abbrev pub ipproto_tcp : ℕ
ipproto_tcp = 6

abbrev pub ipproto_udp : ℕ
ipproto_udp = 17

-- RTE_IPV4(a, b, c, d)
abbrev pub rte_ipv4 : ℕ → ℕ → ℕ → ℕ → ℕ
rte_ipv4 a b c d = ((a * 256 + b) * 256 + c) * 256 + d

abbrev get_or : List ℕ → ℕ → ℕ → ℕ
get_or [] i d = d
get_or (x ∷ xs) zero d = x
get_or (x ∷ xs) (suc i) d = get_or xs i d

-- A packet with these bytes and zeros behind them.
abbrev pub packet_of : List ℕ → Mbuf
packet_of bytes = record { data_len = length bytes; byte = λ i. get_or bytes i 0 }

-- Every byte of memory is a byte.
abbrev pub IsBytes : Mbuf → Type 0
IsBytes m = (i : ℕ) → m.byte i < 256

abbrev pub all_bytes : List ℕ → Bool
all_bytes [] = true
all_bytes (x ∷ xs) = ltb x 256 && all_bytes xs

pub packet_of-IsBytes : (bytes : List ℕ) → all_bytes bytes ≡ true → IsBytes (packet_of bytes)
packet_of-IsBytes [] h i = omega arith
packet_of-IsBytes (x ∷ xs) h zero = ground arith
packet_of-IsBytes (x ∷ xs) h (suc i) = packet_of-IsBytes xs (and_right (ltb x 256) _ h) i
  where
    and_right : (a b : Bool) → a && b ≡ true → b ≡ true
    and_right true b h = h
    and_right false b h = ground arith
