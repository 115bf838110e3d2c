-- ===== src/UdpPacket.antt =====
-- tranmit_packet/packet_creation/simple_tx.c: `build_udp_packet`, which writes one UDP packet into an
-- mbuf, and the transmission loop of `main`. `cksum` stands for `rte_ipv4_cksum` of DPDK, as in
-- StaticNat.antt. `data_len` stands for `data_len` and `pkt_len`, which are set together.
pub mod Roundtrip
pub mod Sending
use dpdk_starter.Base.{
  ℕ, zero, suc, ◌+◌, List, [], ◌∷◌, ◌++◌, length, u16, Bool, true, false, ◌==◌, if◌then◌else◌,
}
use dpdk_starter.Packet.{
  Mbuf, set_byte, set_be16, set_be32, ether_hdr_size, ipv4_hdr_size, udp_hdr_size, ether_type_ipv4,
  ipproto_udp,
}

-- "Hello from DPDK AF_PACKET!"
abbrev pub payload : List ℕ
payload =
    b'H' ∷ b'e' ∷ b'l' ∷ b'l' ∷ b'o' ∷ 32 ∷ b'f' ∷ b'r' ∷ b'o' ∷ b'm' ∷ 32 ∷ b'D' ∷ b'P' ∷ b'D'
    ∷ b'K' ∷ 32 ∷ b'A' ∷ b'F' ∷ b'_' ∷ b'P' ∷ b'A' ∷ b'C' ∷ b'K' ∷ b'E' ∷ b'T' ∷ b'!' ∷ []

abbrev pub broadcast : List ℕ
broadcast = 0xff ∷ 0xff ∷ 0xff ∷ 0xff ∷ 0xff ∷ 0xff ∷ []

abbrev pub src_mac : List ℕ
src_mac = 0x00 ∷ 0x15 ∷ 0x5d ∷ 0x0e ∷ 0x66 ∷ 0x03 ∷ []

-- `memcpy` and `rte_ether_addr_copy` to an offset of the packet.
unfoldable pub copy_bytes : Mbuf → ℕ → List ℕ → Mbuf
copy_bytes m i [] = m
copy_bytes m i (x ∷ xs) = copy_bytes (set_byte m i x) (i + 1) xs

-- `// ETH HEADER`
unfoldable pub build_ether : Mbuf → Mbuf
unfolding copy_bytes
build_ether m = set_be16 (copy_bytes (copy_bytes m 0 broadcast) 6 src_mac) 12 ether_type_ipv4

module _ (cksum : Mbuf → ℕ) where
  -- `//  IP HEADER`, at offset 14.
  unfoldable pub build_ipv4 : Mbuf → Mbuf
  build_ipv4 m =
      let m₁ = set_byte (set_byte m 14 0x45) 15 0 in
      let m₂ = set_be16 m₁ 16 (ipv4_hdr_size + udp_hdr_size + length payload) in
      let m₃ = set_be16 (set_be16 m₂ 18 0) 20 0 in
      let m₄ = set_byte (set_byte m₃ 22 64) 23 ipproto_udp in
      let m₅ = set_be32 (set_be32 m₄ 26 0x7F000001) 30 0x7F000001 in
      let m₆ = set_be16 m₅ 24 0 in set_be16 m₆ 24 (cksum m₆)

  -- `// UDP HEADER`, at offset 34.
  unfoldable pub build_udp : Mbuf → Mbuf
  build_udp m =
      set_be16 (set_be16 (set_be16 (set_be16 m 34 1234) 36 5678) 38 (udp_hdr_size + length payload))
        40 0

  unfoldable pub build_udp_packet : Mbuf → Mbuf
  unfolding build_ether build_ipv4 build_udp copy_bytes
  build_udp_packet m =
      let pkt_len = u16 (ether_hdr_size + ipv4_hdr_size + udp_hdr_size + length payload) in
      copy_bytes (build_udp (build_ipv4 (build_ether (record m { data_len = pkt_len })))) 42 payload

-- The `while (1)` of `main`, on what `rte_eth_tx_burst` returns in each round: `true` for a packet
-- that is taken. What is logged is each call on the mbuf `m`.
pub data Use : Type 0 where
  transmit : ℕ → Use
  free : ℕ → Use

unfoldable pub tx_loop : ℕ → List Bool → List Use
tx_loop m [] = []
tx_loop m (sent ∷ rounds) =
    let rest = tx_loop m rounds in transmit m ∷ (if sent then rest else free m ∷ rest)
