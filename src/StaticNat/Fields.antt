-- ===== src/StaticNat/Fields.antt =====
-- What `simulate_nat` does to each field of a frame.
use dpdk_starter.Base.{ℕ, ◌<◌, ◌≡◌, ◌≢◌, ◌⊎◌, ◌==◌, if◌then◌else◌, arith}
use dpdk_starter.Packet.{Mbuf, be16, be32, ether_type_ipv4}
use dpdk_starter.StaticNat.{
  private_ip, public_ip, src_at, dst_at, outbound, inbound, update_checksum, simulate_nat,
}

outbound-fields :
    (m : Mbuf)
    → (be32 (outbound m) src_at
        ≡ (if be32 m src_at == private_ip then public_ip else be32 m src_at))
      × (be32 (outbound m) dst_at ≡ be32 m dst_at)
unfolding outbound
outbound-fields m = ground arith

inbound-fields :
    (m : Mbuf)
    → (be32 (inbound m) dst_at ≡ (if be32 m dst_at == public_ip then private_ip else be32 m dst_at))
      × (be32 (inbound m) src_at ≡ be32 m src_at)
unfolding inbound
inbound-fields m = ground arith

module _ (cksum : Mbuf → ℕ) where
  update_checksum-fields :
      (m : Mbuf)
      → (be32 (update_checksum cksum m) dst_at ≡ be32 m dst_at)
        × (be32 (update_checksum cksum m) src_at ≡ be32 m src_at)
  unfolding update_checksum
  update_checksum-fields m = ground arith

  -- In an IPv4 frame the source becomes the public address exactly if it was the private one, and
  -- the destination becomes the private address exactly if it was the public one; else they stay.
  pub simulate_nat-fields :
      (m : Mbuf)
      → be16 m 12 ≡ ether_type_ipv4
      → (be32 (simulate_nat cksum m) src_at
          ≡ (if be32 m src_at == private_ip then public_ip else be32 m src_at))
        × (be32 (simulate_nat cksum m) dst_at
            ≡ (if be32 m dst_at == public_ip then private_ip else be32 m dst_at))
  unfolding simulate_nat
  simulate_nat-fields m h = ground (
    arith,
    outbound-fields m,
    inbound-fields (outbound m),
    update_checksum-fields (inbound (outbound m)),
  )

  -- No byte outside the checksum and the two addresses is changed, nor the length; and a frame that
  -- is no IPv4 frame is left as it is.
  pub simulate_nat-other :
      (m : Mbuf) (i : ℕ)
      → (i < 24) ⊎ (33 < i)
      → ((simulate_nat cksum m).byte i ≡ m.byte i)
        × ((simulate_nat cksum m).data_len ≡ m.data_len)
        × (be16 m 12 ≢ ether_type_ipv4 → simulate_nat cksum m ≡ m)
  unfolding simulate_nat outbound inbound update_checksum
  simulate_nat-other m i h = ground arith
