-- ===== src/GraphSamples/Workers.antt =====
-- graph/two_start_with_worker/main.c: two sources, each with a node of its own for its four objects.
use dpdk_starter.Base.{
  ◌⊎◌, inl, inr, ℕ, zero, suc, ◌+◌, ◌-◌, ◌≤◌, ◌<◌, ◌≡◌, refl, Bool, true, false, List, [], ◌∷◌,
  ◌++◌, length, replicate, ltb, if◌then◌else◌, arith,
}
use dpdk_starter.GraphSamples.Walks.{Outcome, left, quiet, walks, walks_end}

abbrev pub burst : ℕ
burst = 4

-- The streams of the two workers, and the objects of each of their calls; a worker prints how many.
pub record State : Type 0 where
  pub count : ℕ
  pub stream1 : List ℕ
  pub stream2 : List ℕ
  pub dequeued1 : List (List ℕ)
  pub dequeued2 : List (List ℕ)

abbrev pub initial : State
initial = record { count = 0; stream1 = []; stream2 = []; dequeued1 = []; dequeued2 = [] }

-- `for (int i = 0; i < BURST; i++)`, from `i` on with `n` to go.
abbrev pub objects_from : ℕ → ℕ → ℕ → List ℕ
objects_from base i zero = []
objects_from base i (suc n) = (base + i) ∷ objects_from base (suc i) n

unfoldable pub start1_process : State → State
start1_process s = record s { stream1 = s.stream1 ++ objects_from 0 0 burst }

unfoldable pub start2_process : State → State
start2_process s = record s { stream2 = s.stream2 ++ objects_from 100 0 burst }

unfoldable pub work1_process : State → State
work1_process s = record s { stream1 = []; dequeued1 = s.stream1 ∷ s.dequeued1 }

unfoldable pub work2_process : State → State
work2_process s = record s { stream2 = []; dequeued2 = s.stream2 ∷ s.dequeued2 }

-- The sources, then the workers that have objects, each pair in the order that lib/graph chooses.
unfoldable pub graph_walk : State → Bool × Bool → State
graph_walk s (start1_first, work1_first) =
    let s1 =
      if start1_first
      then start2_process (start1_process s)
      else start1_process (start2_process s) in
    let run1 : State → State = λ u. if ltb 0 (length u.stream1) then work1_process u else u in
    let run2 : State → State = λ u. if ltb 0 (length u.stream2) then work2_process u else u in
    if work1_first then run2 (run1 s1) else run1 (run2 s1)

-- The body of the loop.
unfoldable pub walk : State → Bool × Bool → State
walk s order = let t = graph_walk s order in record t { count = t.count + 1 }

-- `while (!force_quit && count < 10)`
abbrev pub run : State → List (Bool × (Bool × Bool)) → Outcome State
run = walks (λ s. ltb s.count 10) walk

-- Between two walks.
pub record IsServed (s : State) : Type 0 where
  pub stream1 : s.stream1 ≡ []
  pub stream2 : s.stream2 ≡ []
  pub dequeued1 : s.dequeued1 ≡ replicate s.count (0 ∷ 1 ∷ 2 ∷ 3 ∷ [])
  pub dequeued2 : s.dequeued2 ≡ replicate s.count (100 ∷ 101 ∷ 102 ∷ 103 ∷ [])
  pub bound : s.count ≤ 10

walk-IsServed :
    (s : State) (order : Bool × Bool)
    → IsServed s
    → ltb s.count 10 ≡ true
    → IsServed (walk s order) × (10 - (walk s order).count < 10 - s.count)
unfolding walk graph_walk start1_process start2_process work1_process work2_process
walk-IsServed s (true, true) h more = (ground (arith, h), ground (arith, h))
walk-IsServed s (true, false) h more = (ground (arith, h), ground (arith, h))
walk-IsServed s (false, true) h more = (ground (arith, h), ground (arith, h))
walk-IsServed s (false, false) h more = (ground (arith, h), ground (arith, h))

-- The loop is left after at most ten walks, after exactly ten when no signal arrives, whatever order
-- lib/graph runs the nodes in: in each walk the first worker has received the objects 0 to 3 and the
-- second one the objects 100 to 103, each set at once, and no object waits.
pub workers-IsServed :
    (rounds : List (Bool × (Bool × Bool)))
    → 10 < length rounds
    → (t : State) × (run initial rounds ≡ left t)
      × IsServed t
      × ((t.count ≡ 10) ⊎ (quiet rounds ≡ false))
workers-IsServed rounds le =
    let (t, e, p, q) =
      walks_end (λ s. ltb s.count 10) walk {P = IsServed} (λ s. 10 - s.count) walk-IsServed initial
        rounds
        (record {
          stream1 = refl;
          stream2 = refl;
          dequeued1 = refl;
          dequeued2 = refl;
          bound = omega arith;
        })
        le in
    (t, e, p, elim q [ inl over ↦ inl (ground (arith, over, p)) | inr signal ↦ inr signal ])
