-- ===== src/Lcores/Counter.antt =====
-- Each lcore counts for itself.
use dpdk_starter.Base.{
  ℕ, ◌+◌, ◌≡◌, ap, ◌∙◌, Bool-cases, ◌⊎◌, inl, inr, List, [], ◌∷◌, ◌++◌, map, count, count-append,
  All, All-append, ◌==◌, arith,
}
use mathlib.Core.List.{map-append}
use dpdk_starter.Ipc.Runs.{Star, Star-invariant}
use dpdk_starter.Lcores.{
  Place, not_launched, started, counted, printed, State, set_at, increment, print_counter, Step,
  increments, prints, launch,
}

-- How often an lcore has counted and printed, by where it stands.
abbrev pub counter_at : Place → ℕ
counter_at not_launched = 0
counter_at started = 0
counter_at counted = 1
counter_at printed = 1

abbrev pub lines_at : Place → ℕ
lines_at not_launched = 0
lines_at started = 0
lines_at counted = 0
lines_at printed = 1

abbrev pub lcores : List (ℕ × ℕ) → List ℕ
lcores = map (λ l. l.0)

-- What holds for one lcore.
abbrev Counts : State → ℕ → Type 0
Counts s j =
    (s.my_counter j ≡ counter_at (s.place j)) × (count j (lcores s.lines) ≡ lines_at (s.place j))

abbrev Keeps : State → Type 0
Keeps s = ((j : ℕ) → Counts s j) × All (λ l. l.1 ≡ 1) s.lines

set_at-same : {A : Type 0} (f : ℕ → A) (id : ℕ) (v : A) → set_at f id v id ≡ v
set_at-same f id v = ground arith

increment-Keeps : (s : State) (id : ℕ) → s.place id ≡ started → Keeps s → Keeps (increment s id)
unfolding increment
increment-Keeps s id e (h, all) = (
  λ j. elim (Bool-cases (j == id)) [
    | inl same ↦
        let here : j ≡ id = ground arith in
        let (n, c) = h id in
        rw (here, set_at-same s.place id counted, set_at-same s.my_counter id (s.my_counter id + 1))
          ((ground (arith, n, ap counter_at e), c ∙ ap lines_at e))
    | inr other ↦ rw other (h j)
  ],
  all,
)

lcores-line :
    (ls : List (ℕ × ℕ)) (id n j : ℕ)
    → count j (lcores (ls ++ ((id, n) ∷ []))) ≡ count j (lcores ls) + count j (id ∷ [])
lcores-line ls id n j =
    ap (count j) (map-append (λ l. l.0) ls ((id, n) ∷ [])) ∙ count-append j (lcores ls) (id ∷ [])

print-Keeps : (s : State) (id : ℕ) → s.place id ≡ counted → Keeps s → Keeps (print_counter s id)
unfolding print_counter
print-Keeps s id e (h, all) =
    let (m, d) = h id in
    let one : s.my_counter id ≡ 1 = m ∙ ap counter_at e in
    (
      λ j. elim (Bool-cases (j == id)) [
        | inl same ↦
            let here : j ≡ id = ground arith in
            rw (here, set_at-same s.place id printed)
              ((one, ground (arith, lcores-line s.lines id (s.my_counter id) id, d, ap lines_at e)))
        | inr other ↦
            let (n, c) = h j in
            rw other ((n, ground (arith, lcores-line s.lines id (s.my_counter id) j, c)))
      ],
      All-append (λ l. l.1 ≡ 1) s.lines ((id, s.my_counter id) ∷ []) all (one, tt),
    )

Step-Keeps : (s t : State) → Keeps s → Step s t → Keeps t
Step-Keeps s t h (increments id e) = increment-Keeps s id e h
Step-Keeps s t h (prints id e) = print-Keeps s id e h

-- In every interleaving of lcores that start with nothing done: every line that is printed shows the counter
-- 1, and each lcore has printed as many lines as it should by where it stands, one behind its print and
-- none before; so no lcore sees the increments of another.
pub lcores_count_alone :
    (place : ℕ → Place) {s : State}
    → ((j : ℕ) → (place j ≡ not_launched) ⊎ (place j ≡ started))
    → Star Step (launch place) s
    → All (λ l. l.1 ≡ 1) s.lines
      × ((j : ℕ)
          → (count j (lcores s.lines) ≡ lines_at (s.place j))
            × (s.my_counter j ≡ counter_at (s.place j)))
lcores_count_alone place {s} fresh ss =
    let start : Keeps (launch place) = (λ j. ground (arith, fresh j), tt) in
    let (h, all) = Star-invariant {P = Keeps} Step-Keeps start ss in (all, λ j. ((h j).1, (h j).0))
