-- ===== src/GraphSamples/Hello.antt =====
-- graph/sample/main.c: the source gives its next node an empty set of objects. The second next node is
-- outside the one edge of the source, so no walk reaches it.
use dpdk_starter.Base.{
  ◌⊎◌, inl, inr, ℕ, ◌+◌, ◌-◌, ◌≤◌, ◌<◌, ◌≡◌, refl, Bool, true, false, List, length, ltb,
  if◌then◌else◌, arith,
}
use dpdk_starter.GraphSamples.Walks.{Outcome, left, quiet, walks, walks_end}

-- `count`, and how often each node has run.
pub record State : Type 0 where
  pub count : ℕ
  pub hellos : ℕ
  pub dummies : ℕ

abbrev pub initial : State
initial = record { count = 0; hellos = 0; dummies = 0 }

unfoldable pub hello_node_process : State → State
hello_node_process s = record s { count = s.count + 1; hellos = s.hellos + 1 }

unfoldable pub dummy_node_process : State → State
dummy_node_process s = record s { count = s.count + 1; dummies = s.dummies + 1 }

-- `rte_graph_walk`: `runs` says whether lib/graph runs a node that was given no objects.
unfoldable pub walk : State → Bool → State
walk s runs = let s1 = hello_node_process s in if runs then dummy_node_process s1 else s1

-- `while (!force_quit && count < 10)`
abbrev pub run : State → List (Bool × Bool) → Outcome State
run = walks (λ s. ltb s.count 10) walk

pub record IsCounting (s : State) : Type 0 where
  pub counted : s.count ≡ s.hellos + s.dummies
  pub fewer : s.dummies ≤ s.hellos
  pub bound : s.count ≤ 11

walk-IsCounting :
    (s : State) (runs : Bool)
    → IsCounting s
    → ltb s.count 10 ≡ true
    → IsCounting (walk s runs) × (11 - (walk s runs).count < 11 - s.count)
unfolding walk hello_node_process dummy_node_process
walk-IsCounting s true h more = (ground (arith, h), ground (arith, h))
walk-IsCounting s false h more = (ground (arith, h), ground (arith, h))

-- The loop is left after at most eleven walks, whether lib/graph runs the second node in a walk or not:
-- `count` is then the number of the runs of both nodes, at most eleven, and ten at least when no signal
-- has arrived; so there were five walks or more.
pub hello_graph_ends :
    (rounds : List (Bool × Bool))
    → 11 < length rounds
    → (t : State) × (run initial rounds ≡ left t)
      × IsCounting t
      × (((10 ≤ t.count) × (5 ≤ t.hellos)) ⊎ (quiet rounds ≡ false))
hello_graph_ends rounds le =
    let (t, e, p, q) =
      walks_end (λ s. ltb s.count 10) walk {P = IsCounting} (λ s. 11 - s.count) walk-IsCounting
        initial rounds (record { counted = refl; fewer = omega arith; bound = omega arith }) le in
    (
      t,
      e,
      p,
      elim q [
        | inl over ↦ inl (ground (arith, over), ground (arith, over, p))
        | inr signal ↦ inr signal
      ],
    )
