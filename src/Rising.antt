-- ===== src/Rising.antt =====
-- Lists of numbers that rise, which the programs that count on their packets share.
use dpdk_starter.Base.{ℕ, suc, ◌≤◌, ◌≡◌, sym, List, [], ◌∷◌, ◌++◌, arith}

-- The numbers rise from `lo` on, and stay below `hi`.
abbrev pub Rises : ℕ → List ℕ → ℕ → Type 0
Rises lo [] hi = lo ≤ hi
Rises lo (x ∷ xs) hi = (lo ≤ x) × Rises (suc x) xs hi

pub Rises-append :
    (lo : ℕ) (xs : List ℕ) (hi : ℕ) → Rises lo xs hi → Rises lo (xs ++ (hi ∷ [])) (suc hi)
Rises-append lo [] hi h = (h, omega arith)
Rises-append lo (x ∷ xs) hi (le, h) = (le, Rises-append (suc x) xs hi h)

pub Rises-widen : (lo : ℕ) (xs : List ℕ) (hi : ℕ) → Rises lo xs hi → Rises lo xs (suc hi)
Rises-widen lo [] hi h = omega arith
Rises-widen lo (x ∷ xs) hi (le, h) = (le, Rises-widen (suc x) xs hi h)

pub Rises-le : (lo : ℕ) (xs : List ℕ) (hi : ℕ) → Rises lo xs hi → lo ≤ hi
Rises-le lo [] hi h = h
Rises-le lo (x ∷ xs) hi (le, h) = omega (arith, Rises-le (suc x) xs hi h)

pub Rises-eq :
    (lo : ℕ) {xs ys : List ℕ} {hi hi' : ℕ} → xs ≡ ys → hi ≡ hi' → Rises lo xs hi → Rises lo ys hi'
Rises-eq lo e f h = rw (sym e, sym f) h

pub Rises-front : (lo : ℕ) (xs ys : List ℕ) (hi : ℕ) → Rises lo (xs ++ ys) hi → Rises lo xs hi
Rises-front lo [] ys hi h = Rises-le lo ys hi h
Rises-front lo (x ∷ xs) ys hi (le, h) = (le, Rises-front (suc x) xs ys hi h)

pub Rises-weaken : (lo : ℕ) (xs : List ℕ) (hi hi' : ℕ) → hi ≤ hi' → Rises lo xs hi → Rises lo xs hi'
Rises-weaken lo [] hi hi' le h = omega arith
Rises-weaken lo (x ∷ xs) hi hi' le (a, h) = (a, Rises-weaken (suc x) xs hi hi' le h)
