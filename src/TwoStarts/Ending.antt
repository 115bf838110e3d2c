-- ===== src/TwoStarts/Ending.antt =====
-- How many packets are produced, and when the loop ends.
use dpdk_starter.Base.{
  ℕ, zero, suc, ◌+◌, ◌*◌, ◌≤◌, ◌≡◌, refl, Bool, true, false, Option, none, some, Bool-cases, inl,
  inr, List, [], ◌∷◌, ◌++◌, length, length-append, ltb, if◌then◌else◌, All, arith,
}
use mathlib.Core.List.{append_assoc, append-nil}
use dpdk_starter.TwoStarts.{
  State, initial, start1_process, start2_process, worker_process, Walk, walk, left, run,
}

-- Between two walks: nothing waits, every packet produced is freed, and they are counted, up to ten.
pub record IsSettled (s : State) : Type 0 where
  pub worker : s.worker ≡ []
  pub freed : s.freed ≡ s.produced
  pub counted : s.total_prints ≡ length s.produced
  pub bound : s.total_prints ≤ 10

-- During a walk the worker's stream has what is produced and not freed.
record IsCounted (s : State) : Type 0 where
  freed : s.freed ++ s.worker ≡ s.produced
  counted : s.total_prints ≡ length s.produced
  bound : s.total_prints ≤ 10

start1-IsCounted : (s : State) (o : Option ℕ) → IsCounted s → IsCounted (start1_process s o)
unfolding start1_process
start1-IsCounted s none h = ground (arith, h)
start1-IsCounted s (some m) h =
    ground (arith, h, append_assoc s.freed s.worker (m ∷ []), length-append s.produced (m ∷ []))

start2-IsCounted : (s : State) (o : Option ℕ) → IsCounted s → IsCounted (start2_process s o)
unfolding start2_process
start2-IsCounted s none h = ground (arith, h)
start2-IsCounted s (some m) h =
    ground (arith, h, append_assoc s.freed s.worker (m ∷ []), length-append s.produced (m ∷ []))

worker-IsSettled :
    (s : State) → IsCounted s → IsSettled (if ltb 0 (length s.worker) then worker_process s else s)
unfolding worker_process
worker-IsSettled s h = settle s.worker refl
  where
    settle :
        (waiting : List ℕ)
        → s.worker ≡ waiting
        → IsSettled (if ltb 0 (length s.worker) then worker_process s else s)
    settle [] e = ground (arith, e, h, append-nil s.freed)
    settle (m ∷ ms) e = ground (arith, e, h)

walk-IsSettled : (s : State) (w : Walk) → IsSettled s → IsSettled (walk s w)
unfolding walk
walk-IsSettled s w h =
    let counted : IsCounted s = ground (arith, h, append-nil s.freed) in
    elim (Bool-cases w.start1_first) [
      | inl b ↦
          rw b
            (worker-IsSettled _ (start2-IsCounted _ w.alloc2 (start1-IsCounted s w.alloc1 counted)))
      | inr b ↦
          rw b
            (worker-IsSettled _ (start1-IsCounted _ w.alloc1 (start2-IsCounted s w.alloc2 counted)))
    ]

initial-IsSettled : IsSettled initial
initial-IsSettled = record { worker = refl; freed = refl; counted = refl; bound = omega arith }

run-IsSettled :
    (s : State) (walks : List Walk) (t : State) (rest : List Walk)
    → IsSettled s
    → run s walks ≡ left t rest
    → IsSettled t × (10 ≤ t.total_prints)
unfolding run
run-IsSettled s [] t rest h e = ground (arith, h, e)
run-IsSettled s (w ∷ walks) t rest h e =
    ground (arith, h, e, walk-IsSettled s w h, run-IsSettled (walk s w) walks t rest)

-- Whichever allocations succeed and whichever source runs first: when the loop is left, exactly ten
-- packets have been produced, all of them have been freed, in the order of their production, and none
-- waits for the worker.
pub run-left :
    (walks : List Walk) (t : State) (rest : List Walk)
    → run initial walks ≡ left t rest
    → (length t.produced ≡ 10) × (t.freed ≡ t.produced) × (t.worker ≡ [])
run-left walks t rest e = ground (arith, run-IsSettled initial walks t rest initial-IsSettled e)

-- Both allocations of the walk succeed.
abbrev pub is_well : Walk → Bool
is_well w = elim w.alloc1 [ none ↦ false | some m ↦ elim w.alloc2 [ none ↦ false | some n ↦ true ] ]

walk-total :
    (s : State) (w : Walk)
    → is_well w ≡ true
    → s.total_prints + 2 ≤ 10
    → (walk s w).total_prints ≡ s.total_prints + 2
unfolding walk start1_process start2_process worker_process
walk-total s w h le = ground arith

run_ends_from :
    (d : ℕ) (s : State) (walks : List Walk)
    → s.total_prints + 2 * d ≡ 10
    → d ≤ length walks
    → All (λ w. is_well w ≡ true) walks
    → (t : State) × (rest : List Walk) × (run s walks ≡ left t rest)
      × (length rest + d ≡ length walks)
unfolding run
run_ends_from zero s [] e le h = (s, [], ground arith, ground arith)
run_ends_from zero s (w ∷ walks) e le h = (s, w ∷ walks, ground arith, ground arith)
run_ends_from (suc d) s [] e le h = absurd (omega arith)
run_ends_from (suc d) s (w ∷ walks) e le h =
    let total = walk-total s w h.0 (omega arith) in
    let (t, rest, r, n) =
      run_ends_from d (walk s w) walks (omega (arith, total)) (omega arith) h.1 in
    (t, rest, ground (arith, r), omega (arith, n))

-- If the pool never fails, the loop is left after exactly five walks, in whatever order lib/graph runs
-- the sources.
pub run_ends :
    (walks : List Walk)
    → 5 ≤ length walks
    → All (λ w. is_well w ≡ true) walks
    → (t : State) × (rest : List Walk) × (run initial walks ≡ left t rest)
      × (length rest + 5 ≡ length walks)
run_ends walks le h = run_ends_from 5 initial walks refl le h
