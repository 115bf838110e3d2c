-- ===== src/Acl/Fields.antt =====
-- The tables `field_defs` of the ACL programs, which say where lib/acl finds the fields of a key in
-- memory, and `struct pkt_key`, which the programs fill.
pub mod Layout
mod Tests
use dpdk_starter.Base.{
  ℕ, zero, suc, ◌+◌, ◌-◌, ◌*◌, ◌/◌, ◌%◌, ◌^◌, List, [], ◌∷◌, map, ◌==◌, if◌then◌else◌, Bool, true,
  false, ◌&&◌,
}
use dpdk_starter.Packet.{Mbuf, ipv4_hdr_size}

-- RTE_ACL_FIELD_TYPE_*
pub data FieldType : Type 0 where
  bitmask mask range : FieldType

-- `struct rte_acl_field_def`
pub record FieldDef : Type 0 where
  pub type : FieldType
  pub size : ℕ
  pub field_index : ℕ
  pub input_index : ℕ
  pub offset : ℕ

abbrev field : FieldType → ℕ → ℕ → ℕ → ℕ → FieldDef
field t n f i o = record { type = t; size = n; field_index = f; input_index = i; offset = o }

-- The members of `struct pkt_key` and their sizes.
pub data Member : Type 0 where
  proto src_ip dst_ip src_port dst_port : Member

abbrev pub key_sizes : List (Member × ℕ)
key_sizes = (proto, 1) ∷ (src_ip, 4) ∷ (dst_ip, 4) ∷ (src_port, 2) ∷ (dst_port, 2) ∷ []

abbrev pub same_member : Member → Member → Bool
same_member proto proto = true
same_member src_ip src_ip = true
same_member dst_ip dst_ip = true
same_member src_port src_port = true
same_member dst_port dst_port = true
same_member a b = false

-- The first member lies at `at` or, if it is not aligned there, at the next multiple of its size, and the
-- others behind it.
abbrev pub offset_from : ℕ → List (Member × ℕ) → Member → ℕ
offset_from at [] m = at
offset_from at ((k, n) ∷ ks) m =
    let o = (at + n - 1) / n * n in
    let rest = offset_from (o + n) ks m in if same_member k m then o else rest

-- `offsetof(struct pkt_key, m)`
abbrev pub offsetof : Member → ℕ
offsetof m = offset_from 0 key_sizes m

-- ACL/dual_rule_implementation/main.c
abbrev pub dual_rule_fields : List FieldDef
dual_rule_fields =
    field bitmask 1 0 0 (offsetof proto)
    ∷ field mask 4 1 1 (offsetof src_ip)
    ∷ field mask 4 2 2 (offsetof dst_ip)
    ∷ field range 2 3 3 (offsetof src_port)
    ∷ field range 2 4 4 (offsetof dst_port)
    ∷ []

-- ACL/exp/main.c: both ports are in one input.
abbrev pub tcp_source_fields : List FieldDef
tcp_source_fields =
    field bitmask 1 0 0 (offsetof proto)
    ∷ field mask 4 1 1 (offsetof src_ip)
    ∷ field mask 4 2 2 (offsetof dst_ip)
    ∷ field range 2 3 3 (offsetof src_port)
    ∷ field range 2 4 3 (offsetof dst_port)
    ∷ []

-- ACL/real_packet_acl/main2.c
abbrev pub ssdp_fields : List FieldDef
ssdp_fields =
    field bitmask 1 0 0 (offsetof proto)
    ∷ field mask 4 1 1 (offsetof src_ip)
    ∷ field mask 4 2 2 (offsetof dst_ip)
    ∷ field range 2 3 3 (offsetof src_port)
    ∷ field range 2 4 4 (offsetof dst_port)
    ∷ []

-- ACL/l2fwd_acl/main.c: both ports are in one input.
abbrev pub l2fwd_fields : List FieldDef
l2fwd_fields =
    field bitmask 1 0 0 (offsetof proto)
    ∷ field mask 4 1 1 (offsetof src_ip)
    ∷ field mask 4 2 2 (offsetof dst_ip)
    ∷ field range 2 3 3 (offsetof src_port)
    ∷ field range 2 4 3 (offsetof dst_port)
    ∷ []

-- ACL/muti_rule/main.c: the fields of a `struct rte_ipv4_hdr` (`next_proto_id`, `src_addr` and `dst_addr`
-- at 9, 12 and 16), and the two ports behind it.
abbrev pub multi_rule_fields : List FieldDef
multi_rule_fields =
    field bitmask 1 0 0 9
    ∷ field mask 4 1 1 12
    ∷ field mask 4 2 2 16
    ∷ field range 2 3 3 ipv4_hdr_size
    ∷ field range 2 4 4 (ipv4_hdr_size + 2)
    ∷ []

-- What a table says of an input, field by field: `n` bytes at an offset, the most significant first.
abbrev pub read_bytes : ℕ → ℕ → Mbuf → ℕ
read_bytes zero at m = 0
read_bytes (suc n) at m = m.byte at * 256 ^ n + read_bytes n (at + 1) m

abbrev pub read_fields : List FieldDef → Mbuf → List ℕ
read_fields [] m = []
read_fields (d ∷ ds) m = read_bytes d.size d.offset m ∷ read_fields ds m

-- The manual of lib/acl: the first field has one byte, and the fields of each further input are 4
-- consecutive bytes. `left` bytes of the input `i` are still to come, from `at` on.
abbrev grouped_from : ℕ → ℕ → ℕ → List FieldDef → Bool
grouped_from i left at [] = left == 0
grouped_from i left at (d ∷ ds) =
    let inside =
      d.input_index == i && d.offset == at && grouped_from i (left - d.size) (at + d.size) ds in
    let next = d.input_index == i + 1 && grouped_from (i + 1) (4 - d.size) (d.offset + d.size) ds in
    if left == 0 then next else inside

abbrev pub grouped : List FieldDef → Bool
grouped [] = false
grouped (d ∷ ds) = d.size == 1 && d.input_index == 0 && grouped_from 0 0 0 ds
