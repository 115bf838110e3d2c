-- ===== src/TwoStarts.antt =====
-- graph/two_start_node/main.c: two source nodes that produce packets for one worker, and the main loop.
-- lib/graph is not part of the repository: a walk runs both sources, in an order that it chooses, and
-- then the worker if its stream has objects.
pub mod Ending
mod Tests
use dpdk_starter.Base.{
  ℕ, suc, Bool, true, false, Option, none, some, List, [], ◌∷◌, ◌++◌, length, leb, ltb,
  if◌then◌else◌,
}

-- `total_prints`, the stream of the worker, and the logs of `rte_node_enqueue` and `rte_pktmbuf_free`.
pub record State : Type 0 where
  pub total_prints : ℕ
  pub worker : List ℕ
  pub produced : List ℕ
  pub freed : List ℕ

abbrev pub initial : State
initial = record { total_prints = 0; worker = []; produced = []; freed = [] }

-- `start1_process` on what `rte_pktmbuf_alloc` returns.
unfoldable pub start1_process : State → Option ℕ → State
start1_process s alloc = if leb 10 s.total_prints then s else elim alloc [
  | none ↦ s
  | some m ↦ record s {
    worker = s.worker ++ (m ∷ []);
    produced = s.produced ++ (m ∷ []);
    total_prints = suc s.total_prints;
  }
]

unfoldable pub start2_process : State → Option ℕ → State
start2_process s alloc = if leb 10 s.total_prints then s else elim alloc [
  | none ↦ s
  | some m ↦ record s {
    worker = s.worker ++ (m ∷ []);
    produced = s.produced ++ (m ∷ []);
    total_prints = suc s.total_prints;
  }
]

unfoldable pub worker_process : State → State
worker_process s = record s { worker = []; freed = s.freed ++ s.worker }

-- What lib/graph and the pool do in a walk.
pub record Walk : Type 0 where
  pub start1_first : Bool
  pub alloc1 : Option ℕ
  pub alloc2 : Option ℕ

unfoldable pub walk : State → Walk → State
walk s w =
    let sourced =
      if w.start1_first
      then start2_process (start1_process s w.alloc1) w.alloc2
      else start1_process (start2_process s w.alloc2) w.alloc1 in
    if ltb 0 (length sourced.worker) then worker_process sourced else sourced

-- `while (total_prints < 10)`: the loop is left with the walks that are not run, or still goes on.
pub data Loop : Type 0 where
  left : State → List Walk → Loop
  going : State → Loop

unfoldable pub run : State → List Walk → Loop
run s [] = if ltb s.total_prints 10 then going s else left s []
run s (w ∷ walks) =
    let rest = run (walk s w) walks in if ltb s.total_prints 10 then rest else left s (w ∷ walks)
