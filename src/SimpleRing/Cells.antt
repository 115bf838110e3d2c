-- ===== src/SimpleRing/Cells.antt =====
-- The cells on the ring, and the memory that they are.
use dpdk_starter.Base.{
  ℕ, suc, ◌≤◌, ◌≡◌, refl, sym, ap, ◌∙◌, false, none, some, List, [], ◌∷◌, ◌++◌, map, length,
  length-append, count, ◌==◌, ◌⊎◌, inl, inr, if◌then◌else◌, arith,
}
use native.Mathlib.Decide.{ℕ_discrete}
use dpdk_starter.Ipc.Memory.{Heap, load, free}
use dpdk_starter.SimpleRing.{Producer, head, enqueuing, reporting}

-- The cells on the ring, oldest first: their addresses, numbers, and the memory that they are.
abbrev pub addresses : List (ℕ × ℕ) → List ℕ
addresses = map (λ c. c.0)

abbrev pub values : List (ℕ × ℕ) → List ℕ
values = map (λ c. c.1)

abbrev pub heap_of : List (ℕ × ℕ) → Heap ℕ
heap_of [] = []
heap_of (c ∷ cs) = heap_of cs ++ (c ∷ [])

-- No address stands in two cells.
abbrev pub Distinct : List (ℕ × ℕ) → Type 0
Distinct [] = Unit {0}
Distinct (c ∷ cs) = (load c.0 (heap_of cs) ≡ none) × Distinct cs

pub length-addresses : (cs : List (ℕ × ℕ)) → length (addresses cs) ≡ length cs
length-addresses [] = refl
length-addresses (c ∷ cs) = ap suc (length-addresses cs)

pub length-values : (cs : List (ℕ × ℕ)) → length (values cs) ≡ length cs
length-values [] = refl
length-values (c ∷ cs) = ap suc (length-values cs)

pub heap_of-append : (cs : List (ℕ × ℕ)) (c : ℕ × ℕ) → heap_of (cs ++ (c ∷ [])) ≡ c ∷ heap_of cs
heap_of-append [] c = refl
heap_of-append (d ∷ cs) c = ap (λ h. h ++ (d ∷ [])) (heap_of-append cs c)

pub length-heap_of : (cs : List (ℕ × ℕ)) → length (heap_of cs) ≡ length cs
length-heap_of [] = refl
length-heap_of (c ∷ cs) = omega (arith, length-append (heap_of cs) (c ∷ []), length-heap_of cs)

load-last : (h : Heap ℕ) (p v : ℕ) → load p h ≡ none → load p (h ++ ((p, v) ∷ [])) ≡ some v
load-last [] p v e = ground arith
load-last ((q, w) ∷ h) p v e = ground (arith, load-last h p v)

pub free-fresh : (h : Heap ℕ) (p : ℕ) → load p h ≡ none → free p h ≡ h
free-fresh [] p e = refl
free-fresh ((q, w) ∷ h) p e = ground (arith, free-fresh h p)

load-append :
    (h : Heap ℕ) (p q w : ℕ)
    → load p (h ++ ((q, w) ∷ []))
      ≡ elim (load p h) [ some v ↦ some v | none ↦ if q == p then some w else none ]
load-append [] p q w = ground arith
load-append ((r, u) ∷ h) p q w = ground (arith, load-append h p q w)

free-last : (h : Heap ℕ) (p v : ℕ) → load p h ≡ none → free p (h ++ ((p, v) ∷ [])) ≡ h
free-last [] p v e = ground arith
free-last ((q, w) ∷ h) p v e = ground (arith, free-last h p v)

load-other :
    (h : Heap ℕ) (p q v : ℕ)
    → load p (h ++ ((q, v) ∷ [])) ≡ none
    → (load p h ≡ none) × ((q == p) ≡ false)
load-other [] p q v e = ground arith
load-other ((r, w) ∷ h) p q v e = ground (arith, load-other h p q v)

pub Distinct-append :
    (cs : List (ℕ × ℕ)) (p v : ℕ)
    → load p (heap_of cs) ≡ none
    → Distinct cs
    → Distinct (cs ++ ((p, v) ∷ []))
Distinct-append [] p v e h = (refl, tt)
Distinct-append ((q, w) ∷ cs) p v e (f, h) =
    let (g, other) = load-other (heap_of cs) p q w e in
    (ap (load q) (heap_of-append cs (p, v)) ∙ ground (arith, f, other), Distinct-append cs p v g h)

-- Where the number `bound` is: still to come, or with the producer.
abbrev pub At : Producer → Heap ℕ → List (ℕ × ℕ) → ℕ → ℕ → Type 0
At head heap cells bound made = (heap ≡ heap_of cells) × (bound ≡ made)
At (enqueuing p) heap cells bound made =
    (heap ≡ (p, bound) ∷ heap_of cells) × (suc bound ≡ made) × (load p (heap_of cells) ≡ none)
At (reporting p) heap cells bound made = (heap ≡ heap_of cells) × (bound ≡ made)

pub At-move :
    (a b : Producer) (heap : Heap ℕ) (cells : List (ℕ × ℕ)) (bound made : ℕ)
    → a ≡ b
    → At a heap cells bound made
    → At b heap cells bound made
At-move a b heap cells bound made e h = rw (sym e) h

-- The oldest cell is printed and freed.
pub At-take :
    (a : Producer) (heap : Heap ℕ) (p v : ℕ) (cells : List (ℕ × ℕ)) (bound made : ℕ)
    → At a heap ((p, v) ∷ cells) bound made
    → load p (heap_of cells) ≡ none
    → (load p heap ≡ some v) × At a (free p heap) cells bound made
At-take head heap p v cells bound made (e, b) fresh = (
  ap (load p) e ∙ load-last (heap_of cells) p v fresh,
  (ap (free p) e ∙ free-last (heap_of cells) p v fresh, b),
)
At-take (reporting q) heap p v cells bound made (e, b) fresh = (
  ap (load p) e ∙ load-last (heap_of cells) p v fresh,
  (ap (free p) e ∙ free-last (heap_of cells) p v fresh, b),
)
At-take (enqueuing q) heap p v cells bound made (e, b, new) fresh =
    let (new', other) = load-other (heap_of cells) q p v new in
    (
      ap (load p) e ∙ ground (arith, other, load-last (heap_of cells) p v fresh),
      (ap (free p) e ∙ ground (arith, other, free-last (heap_of cells) p v fresh), b, new'),
    )

pub At-length :
    (a : Producer) (heap : Heap ℕ) (cells : List (ℕ × ℕ)) (bound made : ℕ)
    → At a heap cells bound made
    → (bound ≤ made) × (length cells ≤ length heap) × (length heap ≤ suc (length cells))
At-length head heap cells bound made (e, b) = (
  omega arith,
  omega (arith, ap length e, length-heap_of cells),
  omega (arith, ap length e, length-heap_of cells),
)
At-length (reporting p) heap cells bound made (e, b) = (
  omega arith,
  omega (arith, ap length e, length-heap_of cells),
  omega (arith, ap length e, length-heap_of cells),
)
At-length (enqueuing p) heap cells bound made (e, b, f) = (
  omega arith,
  omega (arith, ap length e, length-heap_of cells),
  omega (arith, ap length e, length-heap_of cells),
)

load-heap_of :
    (cs : List (ℕ × ℕ)) (p v : ℕ) → load p (heap_of cs) ≡ some v → 1 ≤ count p (addresses cs)
load-heap_of [] p v e = absurd (ground (arith, e))
load-heap_of ((q, w) ∷ cs) p v e =
    ground (arith, e, load-append (heap_of cs) p q w, load-heap_of cs p v)

-- An allocated cell is on the ring, or the producer is about to put it there.
pub At-load :
    (a : Producer) (heap : Heap ℕ) (cells : List (ℕ × ℕ)) (bound made p v : ℕ)
    → At a heap cells bound made
    → load p heap ≡ some v
    → (1 ≤ count p (addresses cells)) ⊎ (a ≡ enqueuing p)
At-load head heap cells bound made p v (e, b) got =
    inl (load-heap_of cells p v (ap (load p) (sym e) ∙ got))
At-load (reporting q) heap cells bound made p v (e, b) got =
    inl (load-heap_of cells p v (ap (load p) (sym e) ∙ got))
At-load (enqueuing q) heap cells bound made p v (e, b, f) got =
    let got' : load p ((q, bound) ∷ heap_of cells) ≡ some v = ap (load p) (sym e) ∙ got in
    elim (ℕ_discrete q p) [
      | yes same ↦ inr (ap enqueuing same)
      | no other ↦ inl (load-heap_of cells p v (ground (arith, got', other)))
    ]
