-- ===== src/StaticNat/Tests.antt =====
-- The translation at concrete frames, with a checksum that adds two header fields.
use dpdk_starter.Base.{
  ℕ, ◌+◌, ◌≡◌, ◌≢◌, refl, inl, List, [], ◌∷◌, ◌++◌, replicate, ◌==◌, if◌then◌else◌, arith,
}
use dpdk_starter.Packet.{Mbuf, packet_of, be16, be32, ether_type_ipv4}
use dpdk_starter.StaticNat.{
  private_ip, public_ip, src_at, dst_at, outbound, inbound, update_checksum, simulate_nat,
}
use dpdk_starter.StaticNat.Fields.{simulate_nat-fields, simulate_nat-other}
use dpdk_starter.StaticNat.Loop.{State}
use dpdk_starter.StaticNat.Again.{simulate_nat_again}

abbrev frame : List ℕ → List ℕ → Mbuf
frame src dst = packet_of (replicate 12 0 ++ (8 ∷ 0 ∷ 0x45 ∷ replicate 11 0) ++ (src ++ dst))

abbrev out_frame : Mbuf
out_frame = frame (172 ∷ 22 ∷ 116 ∷ 70 ∷ []) (8 ∷ 8 ∷ 8 ∷ 8 ∷ [])

abbrev in_frame : Mbuf
in_frame = frame (8 ∷ 8 ∷ 8 ∷ 8 ∷ []) (203 ∷ 0 ∷ 113 ∷ 10 ∷ [])

abbrev sum_of : Mbuf → ℕ
sum_of m = be16 m 24 + be16 m 28

translated :
    (be32 (simulate_nat sum_of out_frame) src_at ≡ public_ip)
    × (be32 (simulate_nat sum_of in_frame) dst_at ≡ private_ip)
unfolding simulate_nat outbound inbound update_checksum
translated = (refl, refl)

simulate_nat-fields_example :
    (be32 (simulate_nat sum_of out_frame) src_at ≡ public_ip)
    × (be32 (simulate_nat sum_of out_frame) dst_at ≡ be32 out_frame dst_at)
simulate_nat-fields_example = simulate_nat-fields sum_of out_frame refl

simulate_nat-other_example :
    ((simulate_nat sum_of out_frame).byte 3 ≡ out_frame.byte 3)
    × ((simulate_nat sum_of out_frame).data_len ≡ out_frame.data_len)
    × (be16 out_frame 12 ≢ ether_type_ipv4 → simulate_nat sum_of out_frame ≡ out_frame)
simulate_nat-other_example = simulate_nat-other sum_of out_frame 3 (inl (omega arith))

simulate_nat_again_example :
    simulate_nat sum_of (simulate_nat sum_of out_frame) ≡ simulate_nat sum_of out_frame
simulate_nat_again_example = simulate_nat_again sum_of out_frame

abbrev idle : State
idle = record { memory = λ a. if a == 1 then out_frame else in_frame; sent = []; lost = [] }
