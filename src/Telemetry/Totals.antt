-- ===== src/Telemetry/Totals.antt =====
-- The total against the counters of the lcores.
use dpdk_starter.Base.{
  ℕ, zero, suc, ◌+◌, ◌-◌, ◌≤◌, ◌<◌, ◌≡◌, refl, List, [], ◌∷◌, length, All, arith,
}
use dpdk_starter.Telemetry.{
  Point, head, counted, loaded, Lcore, State, worker_loop, run_worker, run, idle, launch, counters,
  adv_summary_handler, adv_lcore_stats_handler,
}

abbrev pub sum : List ℕ → ℕ
sum [] = 0
sum (x ∷ xs) = x + sum xs

-- The loops whose second increment is over, too.
abbrev finished : ℕ → Point → ℕ
finished loops head = loops
finished loops counted = loops - 1
finished loops (loaded v) = loops - 1

abbrev finished_all : List Lcore → ℕ
finished_all [] = 0
finished_all (c ∷ cs) = finished c.loops c.point + finished_all cs

-- Between two steps: what a worker has loaded is at most `d`.
abbrev IsSound : ℕ → ℕ → Point → Type 0
IsSound d loops head = Unit {0}
IsSound d loops counted = 0 < loops
IsSound d loops (loaded v) = (0 < loops) × (v ≤ d)

-- After `n` steps, of which `d` ended a loop.
abbrev AllSound : ℕ → ℕ → List Lcore → Type 0
AllSound n d = All (λ c. (c.loops ≤ n) × IsSound d c.loops c.point)

-- `more` is 1 if the step ended a loop.
abbrev Counts : ℕ → ℕ → List Lcore → List Lcore × ℕ → Type 0
Counts n d cs (cs', t) =
    (more : ℕ) × (finished_all cs' ≡ finished_all cs + more)
    × (t ≤ d + more)
    × AllSound (suc n) (d + more) cs'

finished-le : (loops : ℕ) (p : Point) → finished loops p ≤ loops
finished-le loops head = omega arith
finished-le loops counted = omega arith
finished-le loops (loaded v) = omega arith

IsSound-weaken : (d e loops : ℕ) (p : Point) → d ≤ e → IsSound d loops p → IsSound e loops p
IsSound-weaken d e loops head le h = tt
IsSound-weaken d e loops counted le h = h
IsSound-weaken d e loops (loaded v) le (pos, h) = (pos, omega arith)

AllSound-weaken : (n d e : ℕ) (cs : List Lcore) → d ≤ e → AllSound n d cs → AllSound (suc n) e cs
AllSound-weaken n d e [] le h = tt
AllSound-weaken n d e (c ∷ cs) le ((a, h), hs) =
    ((omega arith, IsSound-weaken d e c.loops c.point le h), AllSound-weaken n d e cs le hs)

worker_loop_lem :
    (n d total loops : ℕ) (p : Point)
    → suc n < 18446744073709551616
    → total ≤ d
    → loops ≤ n
    → IsSound d loops p
    → let (c, t) = worker_loop total (record { loops = loops; point = p }) in
      (more : ℕ) × (finished c.loops c.point ≡ finished loops p + more)
      × (t ≤ d + more)
      × (c.loops ≤ suc n)
      × IsSound (d + more) c.loops c.point
unfolding worker_loop
worker_loop_lem n d total loops head less le a h =
    (0, ground arith, ground arith, ground arith, ground arith)
worker_loop_lem n d total loops counted less le a h =
    (0, omega arith, omega arith, omega arith, (h, omega arith))
worker_loop_lem n d total loops (loaded v) less le a (pos, h) =
    (1, omega arith, ground arith, omega arith, tt)

run_worker-Counts :
    (n d total i : ℕ) (cs : List Lcore)
    → suc n < 18446744073709551616
    → total ≤ d
    → AllSound n d cs
    → Counts n d cs (run_worker total i cs)
unfolding run_worker
run_worker-Counts n d total i [] less le h = (0, refl, omega arith, tt)
run_worker-Counts n d total zero (c ∷ cs) less le ((a, h), hs) =
    let (more, f, t, b, k) = worker_loop_lem n d total c.loops c.point less le a h in
    (more, omega (arith, f), t, ((b, k), AllSound-weaken n d (d + more) cs (omega arith) hs))
run_worker-Counts n d total (suc i) (c ∷ cs) less le ((a, h), hs) =
    let (more, f, t, k) = run_worker-Counts n d total i cs less le hs in
    (
      more,
      omega (arith, f),
      t,
      ((omega arith, IsSound-weaken d (d + more) c.loops c.point (omega arith) h), k),
    )

finished_all-le :
    (n d : ℕ) (cs : List Lcore) → AllSound n d cs → finished_all cs ≤ sum (counters cs)
finished_all-le n d [] h = omega arith
finished_all-le n d (c ∷ cs) ((a, h), hs) =
    omega (arith, finished-le c.loops c.point, finished_all-le n d cs hs)

run_lem :
    (n : ℕ) (s : State) (schedule : List ℕ)
    → n + length schedule < 18446744073709551616
    → s.total ≤ finished_all s.workers
    → AllSound n (finished_all s.workers) s.workers
    → (run s schedule).total ≤ sum (counters (run s schedule).workers)
unfolding run
run_lem n s [] less le h = omega (arith, finished_all-le n (finished_all s.workers) s.workers h)
run_lem n s (i ∷ schedule) less le h =
    let d = finished_all s.workers in
    let (more, f, t, k) = run_worker-Counts n d s.total i s.workers (omega arith) le h in
    let next = run_worker s.total i s.workers in
    run_lem (suc n) (record { total = next.1; workers = next.0 }) schedule (omega arith)
      (omega (arith, f, t)) (rw f k)

idle-AllSound : (d n : ℕ) → AllSound 0 d (idle n)
idle-AllSound d zero = tt
idle-AllSound d (suc n) = ((omega arith, tt), idle-AllSound d n)

-- In every schedule of fewer than 2 ^ 64 steps of the workers: the `total_loops` that /adv/summary
-- reports is at most the sum of the counters that /adv/lcore_stats reports. (It may be less, by the
-- increments that are lost when another worker stores between a worker's load and its store.)
pub total_below_counters :
    (workers : ℕ) (schedule : List ℕ) (hz start now : ℕ)
    → length schedule < 18446744073709551616
    → let s = run (launch workers) schedule in
      (adv_summary_handler s hz start now).total_loops ≤ sum (adv_lcore_stats_handler s)
unfolding adv_summary_handler adv_lcore_stats_handler
total_below_counters workers schedule hz start now less = omega (
  arith,
  run_lem 0 (launch workers) schedule (omega arith) (omega arith)
      (idle-AllSound (finished_all (idle workers)) workers),
)
