-- ===== src/Telemetry/Tests.antt =====
-- Two workers, of which one overwrites what the other has stored.
use dpdk_starter.Base.{ℕ, ◌≤◌, ◌≡◌, refl, List, [], ◌∷◌, arith}
use dpdk_starter.Telemetry.{
  worker_loop, run_worker, run, launch, adv_summary_handler, adv_lcore_stats_handler,
}
use dpdk_starter.Telemetry.Totals.{sum, total_below_counters}

-- The first worker loads 0; the second one ends two loops; the first one stores 1.
abbrev overlapping : List ℕ
overlapping = 0 ∷ 0 ∷ 1 ∷ 1 ∷ 1 ∷ 1 ∷ 1 ∷ 1 ∷ 0 ∷ []

total_is_lost : (run (launch 2) overlapping).total ≡ 1
unfolding run run_worker worker_loop
total_is_lost = refl

counters_are_three : adv_lcore_stats_handler (run (launch 2) overlapping) ≡ 0 ∷ 1 ∷ 2 ∷ []
unfolding run run_worker worker_loop adv_lcore_stats_handler
counters_are_three = refl

total_below_counters_example :
    (adv_summary_handler (run (launch 2) overlapping) 1000 0 5000).total_loops
    ≤ sum (adv_lcore_stats_handler (run (launch 2) overlapping))
total_below_counters_example = total_below_counters 2 overlapping 1000 0 5000 (omega arith)
