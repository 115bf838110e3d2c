-- ===== src/TwoStarts/Tests.antt =====
-- Six walks in which every allocation succeeds.
use dpdk_starter.Base.{ℕ, ◌≡◌, refl, true, some, List, [], ◌∷◌}
use dpdk_starter.TwoStarts.{
  State, initial, start1_process, start2_process, worker_process, Walk, walk, left, run,
}

abbrev both : ℕ → ℕ → Walk
both m n = record { start1_first = true; alloc1 = some m; alloc2 = some n }

abbrev walks : List Walk
walks = both 1 2 ∷ both 3 4 ∷ both 5 6 ∷ both 7 8 ∷ both 9 10 ∷ both 11 12 ∷ []

abbrev ten : List ℕ
ten = 1 ∷ 2 ∷ 3 ∷ 4 ∷ 5 ∷ 6 ∷ 7 ∷ 8 ∷ 9 ∷ 10 ∷ []

abbrev last : State
last = record { total_prints = 10; worker = []; produced = ten; freed = ten }

leaves : run initial walks ≡ left last (both 11 12 ∷ [])
unfolding run walk start1_process start2_process worker_process
leaves = refl
