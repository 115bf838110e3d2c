-- ===== src/StaticNat/Again.antt =====
-- `simulate_nat` twice.
use mathlib.Core.Path.{fun_ext}
use dpdk_starter.Base.{ℕ, ◌≡◌, ◌≢◌, ap, sym, ◌∙◌, inl, arith}
use native.Mathlib.Decide.{ℕ_discrete}
use dpdk_starter.Packet.{Mbuf, be16, be32, set_be16, ether_type_ipv4}
use dpdk_starter.StaticNat.{
  private_ip, public_ip, checksum_at, src_at, dst_at, outbound, inbound, update_checksum,
  simulate_nat,
}
use dpdk_starter.StaticNat.Fields.{simulate_nat-fields, simulate_nat-other}

outbound-noop : (m : Mbuf) → be32 m src_at ≢ private_ip → outbound m ≡ m
unfolding outbound
outbound-noop m h = ground arith

inbound-noop : (m : Mbuf) → be32 m dst_at ≢ public_ip → inbound m ≡ m
unfolding inbound
inbound-noop m h = ground arith

module _ (cksum : Mbuf → ℕ) where
  -- The old checksum does not matter: it is zeroed.
  zeroed_again :
      (m : Mbuf) → set_be16 (update_checksum cksum m) checksum_at 0 ≡ set_be16 m checksum_at 0
  unfolding update_checksum
  zeroed_again m =
      ap (λ (b : ℕ → ℕ). record { data_len = m.data_len; byte = b }) (fun_ext λ j. ground arith)

  update_checksum_again :
      (m : Mbuf) → update_checksum cksum (update_checksum cksum m) ≡ update_checksum cksum m
  unfolding update_checksum
  update_checksum_again m = ap (λ (z : Mbuf). set_be16 z checksum_at (cksum z)) (zeroed_again m)

  simulate_nat-ipv4 :
      (m : Mbuf)
      → be16 m 12 ≡ ether_type_ipv4
      → simulate_nat cksum m ≡ update_checksum cksum (inbound (outbound m))
  unfolding simulate_nat
  simulate_nat-ipv4 m h = ground arith

  -- The result of a translation has nothing left to translate.
  simulate_nat-noop :
      (m : Mbuf)
      → be16 m 12 ≡ ether_type_ipv4
      → (be16 (simulate_nat cksum m) 12 ≡ ether_type_ipv4)
        × (be32 (simulate_nat cksum m) src_at ≢ private_ip)
        × (be32 (simulate_nat cksum m) dst_at ≢ public_ip)
  simulate_nat-noop m h = ground (
    arith,
    simulate_nat-fields cksum m h,
    simulate_nat-other cksum m 12,
    simulate_nat-other cksum m 13,
  )

  again_ipv4 :
      (m : Mbuf)
      → be16 m 12 ≡ ether_type_ipv4
      → simulate_nat cksum (simulate_nat cksum m) ≡ simulate_nat cksum m
  again_ipv4 m h =
      let n : Mbuf = simulate_nat cksum m in
      let fixed : (be16 n 12 ≡ ether_type_ipv4)
          × (be32 n src_at ≢ private_ip)
          × (be32 n dst_at ≢ public_ip) =
        simulate_nat-noop m h in
      let e : n ≡ update_checksum cksum (inbound (outbound m)) = simulate_nat-ipv4 m h in
      simulate_nat-ipv4 n fixed.0
      ∙ ap (λ (k : Mbuf). update_checksum cksum (inbound k)) (outbound-noop n fixed.1)
      ∙ ap (update_checksum cksum) (inbound-noop n fixed.2)
      ∙ ap (update_checksum cksum) e
      ∙ update_checksum_again (inbound (outbound m))
      ∙ sym e

  -- Translating a packet twice is translating it once, with any checksum function.
  pub simulate_nat_again :
      (m : Mbuf) → simulate_nat cksum (simulate_nat cksum m) ≡ simulate_nat cksum m
  simulate_nat_again m = elim (ℕ_discrete (be16 m 12) ether_type_ipv4) [
    | yes h ↦ again_ipv4 m h
    | no h ↦ ap (simulate_nat cksum) ((simulate_nat-other cksum m 0 (inl (omega arith))).2 h)
  ]
