-- ===== src/Seqno/Tests.antt =====
-- Twelve packets in two bursts.
use dpdk_starter.Base.{ℕ, List, [], ◌∷◌}

abbrev first : List ℕ
first = 1 ∷ 2 ∷ 3 ∷ 4 ∷ 5 ∷ 6 ∷ []

abbrev second : List ℕ
second = 7 ∷ 8 ∷ 9 ∷ 10 ∷ 11 ∷ 12 ∷ []
