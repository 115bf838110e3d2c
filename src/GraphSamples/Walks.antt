-- ===== src/GraphSamples/Walks.antt =====
-- The loops `while (!force_quit && count < limit)` of the programs. A round has what the loop sees of
-- `force_quit`, which a signal sets, and what lib/graph does in the walk.
use dpdk_starter.Base.{
  ℕ, ◌<◌, ◌≡◌, refl, Bool, true, false, Bool-cases, ◌⊎◌, inl, inr, not, ◌&&◌, List, [], ◌∷◌, length,
  if◌then◌else◌, arith,
}

-- The loop is left, or it still goes on when the rounds are over.
pub data Outcome (S : Type 0) : Type 0 where
  left : S → Outcome S
  going : S → Outcome S

-- No signal arrives.
abbrev pub quiet : {W : Type 0} → List (Bool × W) → Bool
quiet [] = true
quiet ((quit, w) ∷ rounds) = not quit && quiet rounds

module _ {S : Type 0} {W : Type 0} (test : S → Bool) (walk : S → W → S) where
  abbrev pub walks : S → List (Bool × W) → Outcome S
  walks s [] = going s
  walks s ((quit, w) ∷ rounds) =
      let rest = walks (walk s w) rounds in if not quit && test s then rest else left s

  -- A loop whose walks keep `P` and lower a measure is left, in a state with `P`; it is left
  -- by its own test, or a signal has arrived.
  pub walks_end :
      {P : S → Type 0} (remaining : S → ℕ)
      → ((s : S) (w : W)
          → P s
          → test s ≡ true
          → P (walk s w) × (remaining (walk s w) < remaining s))
      → (s : S) (rounds : List (Bool × W)) → P s
      → remaining s < length rounds
      → (t : S) × (walks s rounds ≡ left t) × P t × ((test t ≡ false) ⊎ (quiet rounds ≡ false))
  walks_end remaining step s [] h le = absurd (omega arith)
  walks_end {P} remaining step s ((true, w) ∷ rounds) h le = (s, refl, h, inr refl)
  walks_end {P} remaining step s ((false, w) ∷ rounds) h le = elim (Bool-cases (test s)) [
    | inl holds ↦
        let (h', less) = step s w h holds in
        let (t, e, p, q) = walks_end {P = P} remaining step (walk s w) rounds h' (omega arith) in
        (t, ground (arith, holds, e), p, q)
    | inr fails ↦ (s, ground (arith, fails), h, inl fails)
  ]
