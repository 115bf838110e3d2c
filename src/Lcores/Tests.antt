-- ===== src/Lcores/Tests.antt =====
-- An lcore that counts and prints, and the end of four workers.
use dpdk_starter.Base.{ℕ, ◌≡◌, inr, All, count, refl, [], ◌∷◌}
use dpdk_starter.Ipc.Runs.{Star, here, then_step}
use dpdk_starter.Lcores.{
  wait_workers, State, started, increment, print_counter, Step, increments, prints, launch,
}
use dpdk_starter.Lcores.Counter.{counter_at, lines_at, lcores, lcores_count_alone}

-- The lcore 1 counts and prints, and the lcore 2 has counted.
abbrev s₃ : State
s₃ = increment (print_counter (increment (launch (λ _. started)) 1) 1) 2

run₃ : Star Step (launch (λ _. started)) s₃
unfolding increment print_counter
run₃ =
    then_step (then_step (then_step here (increments 1 refl)) (prints 1 refl)) (increments 2 refl)

lcores_count_alone_example :
    All (λ l. l.1 ≡ 1) s₃.lines
    × ((j : ℕ)
        → (count j (lcores s₃.lines) ≡ lines_at (s₃.place j))
          × (s₃.my_counter j ≡ counter_at (s₃.place j)))
lcores_count_alone_example = lcores_count_alone (λ _. started) (λ j. inr refl) run₃

-- Four workers return ten times their numbers.
workers_waited : wait_workers (1 ∷ 2 ∷ 3 ∷ 4 ∷ []) ≡ (1, 10) ∷ (2, 20) ∷ (3, 30) ∷ (4, 40) ∷ []
unfolding wait_workers
workers_waited = refl
