-- ===== src/GraphSamples/Arc.antt =====
-- feature_arc/graph_arc/main.c: two flags of the command line say which of two nodes the source gives
-- its objects to; for both, the second one is left to a helper on lcore 1.
use dpdk_starter.Base.{
  ℕ, ◌+◌, ◌-◌, ◌≤◌, ◌<◌, ◌≡◌, refl, Bool, true, false, not, ◌&&◌, ◌||◌, List, ◌∷◌, ltb, ◌==◌,
  if◌then◌else◌, arith,
}
use dpdk_starter.GraphSamples.Walks.{Outcome, left, walks}

-- When the helper runs on lcore 1: before hello_node_process returns, whose frame has `h`, or later.
pub data Helper : Type 0 where
  in_call : Helper
  after_return : Helper

-- The number of the `rte_node_enqueue` calls to each edge, and of the reads of a frame that is gone.
pub record State : Type 0 where
  pub force_quit : Bool
  pub count : ℕ
  pub edge0 : ℕ
  pub edge1 : ℕ
  pub stale_reads : ℕ

abbrev pub initial : State
initial = record { force_quit = false; count = 0; edge0 = 0; edge1 = 0; stale_reads = 0 }

unfoldable pub helper : State → Helper → State
helper s in_call = record s { edge1 = s.edge1 + 1 }
helper s after_return = record s { stale_reads = s.stale_reads + 1 }

-- `feature[0]` and `feature[1]` as 32-bit patterns.
unfoldable pub hello_node_process : ℕ → ℕ → State → Helper → State
hello_node_process f1 f2 s0 time =
    let s = record s0 { count = s0.count + 1 } in
    if f1 == 1 && f2 == 0
    then record s { edge0 = s.edge0 + 1 }
    else if f2 == 1 && f1 == 0
    then record s { edge1 = s.edge1 + 1 }
    else if f1 == 1 && f2 == 1
    then helper (record s { edge0 = s.edge0 + 1 }) time
    else record s { force_quit = true }

-- `dummy_node_process` and `dummy_node_process2`.
unfoldable pub dummy_process : State → State
dummy_process s = record s { count = s.count + 1 }

-- What lib/graph and lcore 1 do in a walk: whether each of the next nodes runs, on no objects.
pub record Choice : Type 0 where
  pub time : Helper
  pub runs1 : Bool
  pub runs2 : Bool

unfoldable pub walk : ℕ → ℕ → State → Choice → State
walk f1 f2 s c =
    let s1 = hello_node_process f1 f2 s c.time in
    let s2 = if c.runs1 && ltb 0 s1.edge0 then dummy_process s1 else s1 in
    if c.runs2 && ltb 0 s2.edge1 then dummy_process s2 else s2

-- `while (!force_quit && count < 1)`
abbrev pub run : ℕ → ℕ → State → List (Bool × Choice) → Outcome State
run f1 f2 = walks (λ s. not s.force_quit && ltb s.count 1) (walk f1 f2)

-- One walk, with an enqueue to the edge of each feature that is enabled, but for what the helper of
-- both features does.
abbrev pub one_walk : ℕ → ℕ → Helper → ℕ × ℕ × ℕ
one_walk f1 f2 in_call = (f1, f2, 0)
one_walk f1 f2 after_return = (f1, f2 - f1, (f1 + f2) - 1)

walk-count : (f1 f2 : ℕ) (c : Choice) → 0 < (walk f1 f2 initial c).count
unfolding walk hello_node_process helper dummy_process
walk-count f1 f2 c = helper-count c.time
  where
    helper-count : (time : Helper) → 0 < (walk f1 f2 initial (record c { time = time })).count
    helper-count in_call = ground arith
    helper-count after_return = ground arith

walks-once :
    (f1 f2 : ℕ) (c : Choice) (next : Bool × Choice) (rounds : List (Bool × Choice))
    → run f1 f2 initial ((false, c) ∷ next ∷ rounds) ≡ left (walk f1 f2 initial c)
walks-once f1 f2 c (true, d) rounds = refl
walks-once f1 f2 c (false, d) rounds = ground (arith, walk-count f1 f2 c)

walk-edges :
    (f1 f2 : ℕ) (time : Helper) (runs1 runs2 : Bool)
    → f1 ≤ 1
    → f2 ≤ 1
    → (let t = walk f1 f2 initial (record { time = time; runs1 = runs1; runs2 = runs2 }) in
        (t.edge0, t.edge1, t.stale_reads))
      ≡ one_walk f1 f2 time
unfolding walk hello_node_process helper dummy_process
walk-edges f1 f2 in_call runs1 runs2 a b = ground arith
walk-edges f1 f2 after_return runs1 runs2 a b = ground arith

walk-quit :
    (f1 f2 : ℕ) (time : Helper) (runs1 runs2 : Bool)
    → f1 ≤ 1
    → f2 ≤ 1
    → (walk f1 f2 initial (record { time = time; runs1 = runs1; runs2 = runs2 })).force_quit
      ≡ not (f1 == 1 || f2 == 1)
unfolding walk hello_node_process helper dummy_process
walk-quit f1 f2 in_call runs1 runs2 a b = ground arith
walk-quit f1 f2 after_return runs1 runs2 a b = ground arith

-- For flags that are 0 or 1, when no signal has arrived: the program makes exactly one walk. It gives
-- the objects to the first node if the first flag is 1, and to the second node if the second flag is
-- 1, except that with both flags the second node gets them only when the helper runs before the source
-- returns; else the helper reads the frame of a call that is over. With no flag it asks the loop to
-- quit.
pub arc_walks_once :
    (f1 f2 : ℕ) (time : Helper) (runs1 runs2 : Bool) (next : Bool × Choice)
    (rounds : List (Bool × Choice))
    → f1 ≤ 1
    → f2 ≤ 1
    → (t : State) × (run f1 f2 initial
          ((false, record { time = time; runs1 = runs1; runs2 = runs2 }) ∷ next ∷ rounds)
        ≡ left t)
      × ((t.edge0, t.edge1, t.stale_reads) ≡ one_walk f1 f2 time)
      × (t.force_quit ≡ not (f1 == 1 || f2 == 1))
arc_walks_once f1 f2 time runs1 runs2 next rounds a b =
    let c : Choice = record { time = time; runs1 = runs1; runs2 = runs2 } in
    (
      walk f1 f2 initial c,
      walks-once f1 f2 c next rounds,
      walk-edges f1 f2 time runs1 runs2 a b,
      walk-quit f1 f2 time runs1 runs2 a b,
    )
