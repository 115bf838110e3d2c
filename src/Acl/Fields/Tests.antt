-- ===== src/Acl/Fields/Tests.antt =====
-- The tables of the five programs, a stored key, and the header of a UDP packet.
use dpdk_starter.Base.{◌≡◌, refl, true, false, [], ◌∷◌, map}
use dpdk_starter.Packet.{Mbuf, packet_of, rte_ipv4}
use dpdk_starter.Acl.Fields.{
  dual_rule_fields, tcp_source_fields, ssdp_fields, l2fwd_fields, multi_rule_fields, read_fields,
  grouped,
}
use dpdk_starter.Acl.Fields.Layout.{memory_at}

-- The manual wants both ports in one input of 4 bytes, which two of the programs have.
exp_grouped : grouped tcp_source_fields ≡ true
exp_grouped = refl

l2fwd_grouped : grouped l2fwd_fields ≡ true
l2fwd_grouped = refl

dual_rule_not_grouped : grouped dual_rule_fields ≡ false
dual_rule_not_grouped = refl

ssdp_not_grouped : grouped ssdp_fields ≡ false
ssdp_not_grouped = refl

exp_offsets : map (λ d. d.offset) tcp_source_fields ≡ 0 ∷ 4 ∷ 8 ∷ 12 ∷ 14 ∷ []
exp_offsets = refl

multi_rule_not_grouped : grouped multi_rule_fields ≡ false
multi_rule_not_grouped = refl

-- An IPv4 header with UDP behind it, at offset 2.
abbrev header : Mbuf
header = packet_of (
    8 ∷ 0 ∷ 69 ∷ 0 ∷ 0 ∷ 28 ∷ 0 ∷ 0 ∷ 0 ∷ 0 ∷ 64 ∷ 17 ∷ 0 ∷ 0 ∷ 10 ∷ 0 ∷ 0 ∷ 1 ∷ 8 ∷ 8 ∷ 8 ∷ 8 ∷ 156
    ∷ 64 ∷ 0 ∷ 53 ∷ 0 ∷ 8 ∷ 0 ∷ 0 ∷ [])

header_fields :
    read_fields multi_rule_fields (memory_at header 2)
    ≡ 17 ∷ rte_ipv4 10 0 0 1 ∷ rte_ipv4 8 8 8 8 ∷ 40000 ∷ 53 ∷ []
header_fields = refl
