-- ===== src/Ipc/Memory.antt =====
-- The cells that rte_malloc has handed out, shared by both processes, with what is in each.
use dpdk_starter.Base.{ℕ, ◌*◌, ◌%◌, Option, none, some, List, [], ◌∷◌, ◌==◌, if◌then◌else◌}

abbrev pub Heap : Type 0 → Type 0
Heap A = List (ℕ × A)

-- A read of a cell that is not allocated is `none`.
abbrev pub load : {A : Type 0} → ℕ → Heap A → Option A
load p [] = none
load p ((q, v) ∷ h) = if q == p then some v else load p h

abbrev pub malloc : {A : Type 0} → ℕ → A → Heap A → Heap A
malloc p v h = (p, v) ∷ h

abbrev pub free : {A : Type 0} → ℕ → Heap A → Heap A
free p [] = []
free p ((q, v) ∷ h) = let rest = free p h in if q == p then rest else (q, v) ∷ rest

-- An `int` is its 32-bit pattern.
abbrev pub minus_one : ℕ
minus_one = 4294967295

abbrev pub mul_int : ℕ → ℕ → ℕ
mul_int a b = a * b % 4294967296
