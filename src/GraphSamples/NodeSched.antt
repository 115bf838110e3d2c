-- ===== src/GraphSamples/NodeSched.antt =====
-- graph/node_sched/main.c: the source gives an object to one of two nodes in turn.
use dpdk_starter.Base.{
  false, ◌⊎◌, ℕ, zero, suc, ◌+◌, ◌-◌, ◌%◌, ◌≤◌, ◌<◌, ◌≡◌, refl, Bool, false, Bool-cases, inl, inr,
  List, [], ◌∷◌, ◌++◌, length, ltb, ◌==◌, if◌then◌else◌, arith,
}
use mathlib.Core.List.{append_assoc}
use dpdk_starter.GraphSamples.Walks.{Outcome, left, quiet, walks, walks_end}

-- The lines that the nodes print.
pub data Line : Type 0 where
  hello_dummy1 hello_dummy2 dummy1_executed dummy2_executed : Line

-- The objects that wait for the two nodes.
pub record State : Type 0 where
  pub count : ℕ
  pub dummy1 : ℕ
  pub dummy2 : ℕ
  pub lines : List Line

abbrev pub initial : State
initial = record { count = 0; dummy1 = 0; dummy2 = 0; lines = [] }

unfoldable pub hello_node_process : State → State
hello_node_process s =
    let n : ℕ = suc s.count in
    if n % 2 == 0
    then record s { count = n; dummy1 = s.dummy1 + 1; lines = s.lines ++ (hello_dummy1 ∷ []) }
    else record s { count = n; dummy2 = s.dummy2 + 1; lines = s.lines ++ (hello_dummy2 ∷ []) }

unfoldable pub dummy_node_process : State → State
dummy_node_process s = record s { dummy1 = 0; lines = s.lines ++ (dummy1_executed ∷ []) }

unfoldable pub dummy_node_process2 : State → State
dummy_node_process2 s = record s { dummy2 = 0; lines = s.lines ++ (dummy2_executed ∷ []) }

-- `rte_graph_walk`; only one of the two nodes has an object.
unfoldable pub walk : State → Unit {0} → State
walk s w =
    let s1 = hello_node_process s in
    let s2 = if ltb 0 s1.dummy1 then dummy_node_process s1 else s1 in
    if ltb 0 s2.dummy2 then dummy_node_process2 s2 else s2

-- `while (!force_quit && count < 10)`
abbrev pub run : State → List (Bool × Unit {0}) → Outcome State
run = walks (λ s. ltb s.count 10) walk

-- What the walks print, counted from one: odd walks are for the second node.
abbrev pub turn : ℕ → List Line
turn n =
    if n % 2 == 0 then hello_dummy1 ∷ dummy1_executed ∷ [] else hello_dummy2 ∷ dummy2_executed ∷ []

abbrev pub turns : ℕ → List Line
turns zero = []
turns (suc n) = turns n ++ turn (suc n)

-- Between two walks.
pub record IsAlternating (s : State) : Type 0 where
  pub dummy1 : s.dummy1 ≡ 0
  pub dummy2 : s.dummy2 ≡ 0
  pub lines : s.lines ≡ turns s.count
  pub bound : s.count ≤ 10

walk-count : (s : State) (w : Unit {0}) → (walk s w).count ≡ suc s.count
unfolding walk hello_node_process dummy_node_process dummy_node_process2
walk-count s w = ground arith

walk-IsAlternating :
    (s : State) (w : Unit {0}) → IsAlternating s → s.count < 10 → IsAlternating (walk s w)
unfolding walk hello_node_process dummy_node_process dummy_node_process2
walk-IsAlternating s w h less = elim (Bool-cases (suc s.count % 2 == 0)) [
  | inl even ↦
      ground (arith, even, h, append_assoc s.lines (hello_dummy1 ∷ []) (dummy1_executed ∷ []))
  | inr odd ↦
      ground (arith, odd, h, append_assoc s.lines (hello_dummy2 ∷ []) (dummy2_executed ∷ []))
]

-- The loop is left after at most ten walks, and after exactly ten when no signal arrives; the walks have
-- gone to the two nodes in turn, the first one to the second node, each object has been processed, and
-- the lines are in this order.
pub node_sched_alternates :
    (rounds : List (Bool × Unit {0}))
    → 10 < length rounds
    → (t : State) × (run initial rounds ≡ left t)
      × IsAlternating t
      × ((t.count ≡ 10) ⊎ (quiet rounds ≡ false))
node_sched_alternates rounds le =
    let (t, e, p, q) =
      walks_end (λ s. ltb s.count 10) walk {P = IsAlternating} (λ s. 10 - s.count)
        (λ s w h holds.
          (walk-IsAlternating s w h (ground arith), ground (arith, walk-count s w, h)))
        initial rounds (record { dummy1 = refl; dummy2 = refl; lines = refl; bound = omega arith })
        le in
    (t, e, p, elim q [ inl over ↦ inl (ground (arith, over, p)) | inr signal ↦ inr signal ])
