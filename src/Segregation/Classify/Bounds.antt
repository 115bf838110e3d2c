-- ===== src/Segregation/Classify/Bounds.antt =====
-- `classify_packet` reads inside the packet only.
use dpdk_starter.Base.{ℕ, ◌+◌, ◌*◌, ◌%◌, ◌<◌, ◌≡◌, arith, u16}
use dpdk_starter.Packet.{Mbuf}
use dpdk_starter.Segregation.Classify.{classify_l4, classify_ipv4, classify_packet}

-- Two packets of one length with the same bytes below it.
pub record SameData (m n : Mbuf) : Type 0 where
  pub len : n.data_len ≡ m.data_len
  pub bytes : (i : ℕ) → i < m.data_len → n.byte i ≡ m.byte i

classify_l4_same :
    (m n : Mbuf) (proto offset : ℕ)
    → SameData m n
    → classify_l4 n proto offset ≡ classify_l4 m proto offset
unfolding classify_l4
classify_l4_same m n proto offset s =
    ground (arith, s.len, s.bytes (offset + 2), s.bytes (offset + 2 + 1))

classify_ipv4_same :
    (m n : Mbuf) (eth_type offset : ℕ)
    → SameData m n
    → classify_ipv4 n eth_type offset ≡ classify_ipv4 m eth_type offset
unfolding classify_ipv4
classify_ipv4_same m n eth_type offset s = ground (
  arith,
  s.len,
  s.bytes offset,
  s.bytes (offset + 9),
  classify_l4_same m n (m.byte (offset + 9)) (u16 (offset + m.byte offset % 16 * 4)) s,
)

-- The class of a packet depends on its length and on the bytes below its length, and on nothing
-- behind them: the checks of `classify_packet` come before every read.
pub classify_packet-SameData : (m n : Mbuf) → SameData m n → classify_packet n ≡ classify_packet m
unfolding classify_packet
classify_packet-SameData m n s = ground (
  arith,
  s.len,
  s.bytes 12,
  s.bytes 13,
  s.bytes 16,
  s.bytes 17,
  classify_ipv4_same m n (m.byte 12 * 256 + m.byte 13) 14 s,
  classify_ipv4_same m n (m.byte 16 * 256 + m.byte 17) 18 s,
)
