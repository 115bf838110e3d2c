-- ===== src/MbufInfo.antt =====
-- ports/port_mempool: `print_mbuf_info` of mk_buff_info.c, which ports/packet_parsing has as well, and the
-- loop of rx_tx.c. What is printed is the result.
pub mod Types
pub mod Loop
mod Tests
use dpdk_starter.Base.{ℕ, ◌/◌, ◌%◌, ◌<◌, List, [], ◌∷◌, ◌==◌, if◌then◌else◌}

-- The strings of the three helpers.
pub data L2 : Type 0 where
  ethernet vlan qinq unknown_l2 : L2

pub data L3 : Type 0 where
  ipv4 ipv4_ext ipv6 ipv6_ext unknown_l3 : L3

pub data L4 : Type 0 where
  tcp udp sctp icmp unknown_l4 : L4

abbrev pub l2_to_str : ℕ → L2
l2_to_str t =
    if t == 1 then ethernet else if t == 2 then vlan else if t == 3 then qinq else unknown_l2

abbrev pub l3_to_str : ℕ → L3
l3_to_str t =
    if t == 1
    then ipv4
    else if t == 2
    then ipv4_ext
    else if t == 3
    then ipv6
    else if t == 4
    then ipv6_ext
    else unknown_l3

abbrev pub l4_to_str : ℕ → L4
l4_to_str t =
    if t == 1
    then tcp
    else if t == 2
    then udp
    else if t == 3
    then sctp
    else if t == 4
    then icmp
    else unknown_l4

-- The fields of `struct rte_mbuf` that are printed.
pub record Info : Type 0 where
  pub port : ℕ
  pub pkt_len : ℕ
  pub data_len : ℕ
  pub nb_segs : ℕ
  pub rss : ℕ
  pub vlan_tci : ℕ
  pub packet_type : ℕ  -- uint32_t

-- The bit fields of four bits that share the memory of `packet_type`, the lowest first.
abbrev pub l2_type : Info → ℕ
l2_type m = m.packet_type % 16

abbrev pub l3_type : Info → ℕ
l3_type m = m.packet_type / 16 % 16

abbrev pub l4_type : Info → ℕ
l4_type m = m.packet_type / 256 % 16

abbrev pub tun_type : Info → ℕ
tun_type m = m.packet_type / 4096 % 16

abbrev pub inner_l2_type : Info → ℕ
inner_l2_type m = m.packet_type / 65536 % 16

abbrev pub inner_l3_type : Info → ℕ
inner_l3_type m = m.packet_type / 1048576 % 16

abbrev pub inner_l4_type : Info → ℕ
inner_l4_type m = m.packet_type / 16777216 % 16

-- A line of the output.
pub data Line : Type 0 where
  header footer : Line
  port total_length segment_length segments rss_hash vlan_tci type_raw tunnel : ℕ → Line
  l2 : L2 → ℕ → Line
  l3 : L3 → ℕ → Line
  l4 : L4 → ℕ → Line
  inner : ℕ → ℕ → ℕ → Line

unfoldable pub print_mbuf_info : Info → List Line
print_mbuf_info m =
    header
    ∷ port m.port
    ∷ total_length m.pkt_len
    ∷ segment_length m.data_len
    ∷ segments m.nb_segs
    ∷ rss_hash m.rss
    ∷ vlan_tci m.vlan_tci
    ∷ type_raw m.packet_type
    ∷ l2 (l2_to_str (l2_type m)) (l2_type m)
    ∷ l3 (l3_to_str (l3_type m)) (l3_type m)
    ∷ l4 (l4_to_str (l4_type m)) (l4_type m)
    ∷ tunnel (tun_type m)
    ∷ inner (inner_l2_type m) (inner_l3_type m) (inner_l4_type m)
    ∷ footer
    ∷ []
