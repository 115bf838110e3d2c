-- ===== src/Ipc/Talk.antt =====
-- What the two processes of a talk say: the numbers from 0 on, and ten times each.
use dpdk_starter.Base.{ℕ, zero, suc, List, [], ◌∷◌, ◌++◌}
use dpdk_starter.Ipc.Memory.{mul_int}

-- 0, 10, and so on, for `n` messages, and the messages themselves.
abbrev pub tens : ℕ → List ℕ
tens zero = []
tens (suc n) = tens n ++ (mul_int n 10 ∷ [])

abbrev pub numbers : ℕ → List ℕ
numbers zero = []
numbers (suc n) = numbers n ++ (n ∷ [])
