-- ===== src/MbufInfo/Types.antt =====
-- What the numbers behind the labels say.
use dpdk_starter.Base.{ℕ, ◌+◌, ◌*◌, ◌<◌, ◌≡◌, List, [], ◌∷◌, arith}
use dpdk_starter.MbufInfo.{Info, Line, l2, l3, l4, tunnel, inner, print_mbuf_info}

-- The parts of the packet type that are printed, put together.
abbrev pub weight : Line → ℕ
weight (l2 s t) = t
weight (l3 s t) = t * 16
weight (l4 s t) = t * 256
weight (tunnel t) = t * 4096
weight (inner a b c) = a * 65536 + b * 1048576 + c * 16777216
weight l = 0

abbrev pub weights : List Line → ℕ
weights [] = 0
weights (l ∷ ls) = weight l + weights ls

-- The numbers behind the labels are together the packet type: the lines that are printed determine it,
-- where its upper four bits, which have no field, are 0.
pub weights-print_mbuf_info :
    (m : Info) → m.packet_type < 268435456 → weights (print_mbuf_info m) ≡ m.packet_type
unfolding print_mbuf_info
weights-print_mbuf_info m h = omega arith
