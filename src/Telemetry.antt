-- ===== src/Telemetry.antt =====
-- telementry/advanced_stats/main.c: the loops of the lcores, which all add one to `g_total_loops`, and
-- the two handlers that report the counters. `g_total_loops++` is a load and a store, and other lcores
-- may run between them; a schedule says which worker runs next.
pub mod Totals
pub mod Command
mod Tests
use dpdk_starter.Base.{ℕ, zero, suc, ◌+◌, ◌-◌, ◌/◌, List, [], ◌∷◌, length, u64, ltb, if◌then◌else◌}

-- Where a worker stands: at the head of its loop, between the two increments, or with what it has
-- loaded from `g_total_loops`.
pub data Point : Type 0 where
  head : Point
  counted : Point
  loaded : ℕ → Point

pub record Lcore : Type 0 where
  pub loops : ℕ
  pub point : Point

-- `g_total_loops` and the workers.
pub record State : Type 0 where
  pub total : ℕ
  pub workers : List Lcore

-- One access of a worker to memory; the result is the worker and `g_total_loops` after it.
unfoldable pub worker_loop : ℕ → Lcore → Lcore × ℕ
worker_loop total c = elim c.point [
  | head ↦ (record c { loops = u64 (c.loops + 1); point = counted }, total)
  | counted ↦ (record c { point = loaded total }, total)
  | loaded v ↦ (record c { point = head }, u64 (v + 1))
]

-- The worker at a place of the list runs.
unfoldable pub run_worker : ℕ → ℕ → List Lcore → List Lcore × ℕ
run_worker total i [] = ([], total)
run_worker total zero (c ∷ cs) = let (c', t) = worker_loop total c in (c' ∷ cs, t)
run_worker total (suc i) (c ∷ cs) = let (cs', t) = run_worker total i cs in (c ∷ cs', t)

unfoldable pub run : State → List ℕ → State
run s [] = s
run s (i ∷ schedule) =
    let (workers, total) = run_worker s.total i s.workers in
    run (record { total = total; workers = workers }) schedule

-- The lines that the workers start from.
abbrev pub idle : ℕ → List Lcore
idle zero = []
idle (suc n) = record { loops = 0; point = head } ∷ idle n

-- `n` workers are launched.
abbrev pub launch : ℕ → State
launch n = record { total = 0; workers = idle n }

-- The numbers of /adv/summary.
pub record Summary : Type 0 where
  pub uptime_sec : ℕ
  pub lcore_count : ℕ
  pub total_loops : ℕ

-- `now` is from the time-stamp counter, which is not below `start`.
unfoldable pub adv_summary_handler : State → ℕ → ℕ → ℕ → Summary
adv_summary_handler s hz start now = record {
  uptime_sec = if ltb 0 hz then (now - start) / hz else 0;
  lcore_count = suc (length s.workers);
  total_loops = s.total;
}

abbrev pub counters : List Lcore → List ℕ
counters [] = []
counters (c ∷ cs) = c.loops ∷ counters cs

-- The array of /adv/lcore_stats; the main lcore, which is the first, does not loop.
unfoldable pub adv_lcore_stats_handler : State → List ℕ
adv_lcore_stats_handler s = 0 ∷ counters s.workers
