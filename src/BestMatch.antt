-- ===== src/BestMatch.antt =====
-- The best element of a list that passes a test: the one of the highest rank. Both lib/acl and lib/lpm
-- of DPDK promise such a search, over rules with priorities and over prefixes with lengths.
use dpdk_starter.Base.{
  ℕ, ◌<◌, ◌≡◌, refl, Bool, true, false, Option, none, some, List, [], ◌∷◌, ◌++◌, ltb, if◌then◌else◌,
  All, arith,
}

module _ {A : Type 0} (passes : A → Bool) (rank : A → ℕ) where
  -- The better of an element and of the best so far: of equal rank the later one.
  abbrev better : Bool → A → Option A → Option A
  better false r o = o
  better true r none = some r
  better true r (some q) = if ltb (rank q) (rank r) then some r else some q

  unfoldable pub best : List A → Option A
  best [] = none
  best (r ∷ rs) = better (passes r) r (best rs)

  pub best-none : (xs : List A) → All (λ r. passes r ≡ false) xs → best xs ≡ none
  unfolding best
  best-none [] h = refl
  best-none (r ∷ rs) h = ground (arith, best-none rs h.1)

  abbrev IsBelow : ℕ → Option A → Type 0
  IsBelow p none = Unit {0}
  IsBelow p (some q) = rank q < p

  best-IsBelow :
      (p : ℕ) (xs : List A) → All (λ q. passes q ≡ true → rank q < p) xs → IsBelow p (best xs)
  unfolding best
  best-IsBelow p [] h = tt
  best-IsBelow p (r ∷ rs) h = below_cases (passes r) (best rs) h.0 (best-IsBelow p rs h.1)
    where
      below_cases :
          (b : Bool) (o : Option A)
          → (b ≡ true → rank r < p)
          → IsBelow p o
          → IsBelow p (better b r o)
      below_cases false o f i = i
      below_cases true none f i = f refl
      below_cases true (some q) f i = ground (arith, f refl)

  best-better : (r : A) (o : Option A) → IsBelow (rank r) o → better true r o ≡ some r
  best-better r none h = refl
  best-better r (some q) h = ground arith

  pub best-some :
      (before : List A) (r : A) (after : List A)
      → passes r ≡ true
      → All (λ q. passes q ≡ true → rank q < rank r) (before ++ after)
      → best (before ++ (r ∷ after)) ≡ some r
  unfolding best
  best-some [] r after m h = rw m (best-better r (best after) (best-IsBelow (rank r) after h))
  best-some (q ∷ before) r after m h =
      rw (best-some before r after m h.1) (keep_cases (passes q) h.0)
    where
      keep_cases : (b : Bool) → (b ≡ true → rank q < rank r) → better b q (some r) ≡ some r
      keep_cases false f = refl
      keep_cases true f = ground (arith, f refl)
