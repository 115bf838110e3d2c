-- ===== src/StaticNat.antt =====
-- NAT/static_nat/main.c: `simulate_nat`, which swaps one private address and one public address.
-- `cksum` stands for `rte_ipv4_cksum` of DPDK: the checksum of the IPv4 header behind the Ethernet
-- header, as the value of its two bytes in memory.
pub mod Fields
pub mod Again
pub mod Loop
mod Tests
use dpdk_starter.Base.{ℕ, not, ◌==◌, if◌then◌else◌}
use dpdk_starter.Packet.{Mbuf, be16, be32, set_be16, set_be32, ether_type_ipv4, rte_ipv4}

abbrev pub private_ip : ℕ
private_ip = rte_ipv4 172 22 116 70

abbrev pub public_ip : ℕ
public_ip = rte_ipv4 203 0 113 10

-- Offsets in the frame: sizeof(struct rte_ether_hdr) and the field's offset in struct rte_ipv4_hdr.
abbrev pub checksum_at : ℕ
checksum_at = 24

abbrev pub src_at : ℕ
src_at = 26

abbrev pub dst_at : ℕ
dst_at = 30

-- `/* Outbound simulation */` and `/* Inbound simulation */`.
unfoldable pub outbound : Mbuf → Mbuf
outbound m = if be32 m src_at == private_ip then set_be32 m src_at public_ip else m

unfoldable pub inbound : Mbuf → Mbuf
inbound m = if be32 m dst_at == public_ip then set_be32 m dst_at private_ip else m

module _ (cksum : Mbuf → ℕ) where
  -- The two stores to `hdr_checksum`.
  unfoldable pub update_checksum : Mbuf → Mbuf
  update_checksum m =
      let zeroed = set_be16 m checksum_at 0 in set_be16 zeroed checksum_at (cksum zeroed)

  unfoldable pub simulate_nat : Mbuf → Mbuf
  simulate_nat m =
      if not (be16 m 12 == ether_type_ipv4) then m else update_checksum (inbound (outbound m))
