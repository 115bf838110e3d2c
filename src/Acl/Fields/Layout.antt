-- ===== src/Acl/Fields/Layout.antt =====
-- What the table of ACL/muti_rule finds in a packet, and the key that ACL/exp makes of it.
use dpdk_starter.Base.{ℕ, ◌+◌, ◌-◌, List, [], ◌∷◌}
use dpdk_starter.Packet.{Mbuf}
use dpdk_starter.Acl.{Key}

abbrev pub members : Key → List ℕ
members k = k.proto ∷ k.src_ip ∷ k.dst_ip ∷ k.src_port ∷ k.dst_port ∷ []

-- The memory from an address on.
abbrev pub memory_at : Mbuf → ℕ → Mbuf
memory_at m at = record { data_len = m.data_len - at; byte = λ i. m.byte (at + i) }
