-- ===== src/Ipc/Runs.antt =====
-- Runs of a step relation: the interleavings of two processes, each step one of theirs.
use dpdk_starter.Base.{ℕ, zero, suc, ◌<◌, ◌⊎◌, inl, inr, arith}

pub data Star {S : Type 0} (R : S → S → Type 0) (s : S) : S → Type 0 where
  here : Star R s s
  then_step : {t u : S} → Star R s t → R t u → Star R s u

module _ {S : Type 0} {R : S → S → Type 0} where
  pub Star-append : {s t u : S} → Star R s t → Star R t u → Star R s u
  Star-append a here = a
  Star-append a (then_step b st) = then_step (Star-append a b) st

  pub Star-invariant :
      {P : S → Type 0} → ((s t : S) → P s → R s t → P t) → {s t : S} → P s → Star R s t → P t
  Star-invariant keep h here = h
  Star-invariant {P} keep h (then_step {t} {u} ss st) =
      keep t u (Star-invariant {P = P} keep h ss) st

  -- Where each state but the last ones has a step to a state of smaller measure, a last one can be
  -- reached. `P c s`: the state `s` looks like `c`, which has the measure.
  pub Star-descend :
      {C : Type 0} {P : C → S → Type 0} {Q : S → Type 0} (left : C → ℕ)
      → ((c : C) (s : S) → P c s → Q s ⊎ ((t : S) × R s t × (d : C) × P d t × (left d < left c)))
      → (n : ℕ) (c : C) (s : S) → P c s
      → left c < n
      → (t : S) × Star R s t × Q t
  Star-descend left step zero c s h le = absurd (omega arith)
  Star-descend {C} {P} {Q} left step (suc n) c s h le = elim (step c s h) [
    | inl q ↦ (s, here, q)
    | inr (t, st, d, h', less) ↦
        let (u, ss, q) = Star-descend {C = C} {P = P} {Q = Q} left step n d t h' (omega arith) in
        (u, Star-append (then_step here st) ss, q)
  ]
