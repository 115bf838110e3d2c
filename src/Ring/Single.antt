-- ===== src/Ring/Single.antt =====
-- `rte_ring_dequeue`, and the calls on a ring whose objects are known.
use dpdk_starter.Base.{
  ℕ, ◌<◌, ◌≡◌, refl, ap, ◌∙◌, true, Bool-cases, ◌⊎◌, inl, inr, Option, none, some, List, [], ◌∷◌,
  ◌++◌, length, arith,
}
use dpdk_starter.Ring.{RingApi, IsSized}
use dpdk_starter.Ring.Bounded.{ring_of, enqueue_refused}

abbrev first : List ℕ → Option ℕ
first [] = none
first (x ∷ xs) = some x

module _ (api : RingApi) where
  open api use {
    items, enqueue, dequeue_burst, items-enqueue_ok, dequeue_burst_bound, items-dequeue_burst,
  }

  -- The object, or `none` for -ENOENT, and the ring after the call.
  unfoldable pub dequeue : api.Ring → Option ℕ × api.Ring
  dequeue r = let (out, r') = dequeue_burst r 1 in (first out, r')

  dequeue_out :
      (r : api.Ring) (out : List ℕ)
      → (dequeue_burst r 1).0 ≡ out
      → ((dequeue r).0 ≡ first out) × (items r ≡ out ++ items (dequeue r).1)
  unfolding dequeue
  dequeue_out r out e =
      (ap first e, items-dequeue_burst r 1 ∙ ap (λ o. o ++ items (dequeue_burst r 1).1) e)

  -- Nothing, or the first object.
  pub dequeue_either :
      (r : api.Ring)
      → (((dequeue r).0 ≡ none) × (items (dequeue r).1 ≡ items r))
        ⊎ ((p : ℕ) × ((dequeue r).0 ≡ some p) × (items r ≡ p ∷ items (dequeue r).1))
  dequeue_either r = split (dequeue_burst r 1).0 refl
    where
      split :
          (out : List ℕ)
          → (dequeue_burst r 1).0 ≡ out
          → (((dequeue r).0 ≡ none) × (items (dequeue r).1 ≡ items r))
            ⊎ ((p : ℕ) × ((dequeue r).0 ≡ some p) × (items r ≡ p ∷ items (dequeue r).1))
      split [] e = inl (ground (arith, dequeue_out r [] e))
      split (x ∷ []) e = let (got, all) = dequeue_out r (x ∷ []) e in inr (x, got, all)
      split (x ∷ y ∷ ys) e = absurd (omega (arith, dequeue_burst_bound r 1, ap length e))

  module _ (capacity : ℕ) (sized : IsSized api capacity) where
    pub enqueue_room :
        (r : api.Ring) (x : ℕ)
        → length (items r) < capacity
        → ((enqueue r x).0 ≡ true) × (items (enqueue r x).1 ≡ items r ++ (x ∷ []))
    enqueue_room r x h = elim (Bool-cases (enqueue r x).0) [
      | inl ok ↦ (ok, items-enqueue_ok r x ok)
      | inr full ↦ absurd (omega (arith, sized.roomy r x full))
    ]

    pub dequeue_empty :
        (r : api.Ring) → items r ≡ [] → ((dequeue r).0 ≡ none) × (items (dequeue r).1 ≡ [])
    dequeue_empty r h = split (dequeue_burst r 1).0 refl
      where
        split :
            (out : List ℕ)
            → (dequeue_burst r 1).0 ≡ out
            → ((dequeue r).0 ≡ none) × (items (dequeue r).1 ≡ [])
        split [] e = ground (arith, dequeue_out r [] e)
        split (x ∷ xs) e = ground (arith, dequeue_out r (x ∷ xs) e)

    pub dequeue_cons :
        (r : api.Ring) (x : ℕ) (xs : List ℕ)
        → items r ≡ x ∷ xs
        → ((dequeue r).0 ≡ some x) × (items (dequeue r).1 ≡ xs)
    dequeue_cons r x xs h = split (dequeue_burst r 1).0 refl
      where
        split :
            (out : List ℕ)
            → (dequeue_burst r 1).0 ≡ out
            → ((dequeue r).0 ≡ some x) × (items (dequeue r).1 ≡ xs)
        split [] e = ground (arith, sized.serving r e)
        split (y ∷ []) e = ground (arith, dequeue_out r (y ∷ []) e)
        split (y ∷ z ∷ zs) e = absurd (omega (arith, dequeue_burst_bound r 1, ap length e))

ring_of_serving : (r : List ℕ) → ((ring_of 1).dequeue_burst r 1).0 ≡ [] → r ≡ []
ring_of_serving [] h = refl
ring_of_serving (x ∷ xs) h = ground arith

pub ring_of-IsSized : (size : ℕ) → IsSized (ring_of size) size
ring_of-IsSized size = record {
  roomy = λ r x h. enqueue_refused size r x h;
  serving = λ r h. ring_of_serving r h;
}
