-- ===== src/Ring/Bounded.antt =====
-- A ring of bounded size as a list, which shows that the interface can be met.
use Prim.Native.Nat.{min}
use dpdk_starter.Base.{
  ℕ, ◌-◌, ◌≤◌, ◌≡◌, refl, sym, Bool, true, false, List, [], ◌∷◌, ◌++◌, length, take, drop, ltb,
  if◌then◌else◌, take-append-drop, length-take, arith,
}
use dpdk_starter.Ring.{RingApi}

abbrev pub dequeue_burst : List ℕ → ℕ → List ℕ × List ℕ
dequeue_burst r n = (take n r, drop n r)

pub min-le_right : (a b : ℕ) → min a b ≤ b
min-le_right a b = omega arith

pub length-take_bound : (n : ℕ) (r : List ℕ) → length (take n r) ≤ n
length-take_bound n r = omega (arith, length-take n r)

module _ (size : ℕ) where
  abbrev pub enqueue : List ℕ → ℕ → Bool × List ℕ
  enqueue r x = if ltb (length r) size then (true, r ++ (x ∷ [])) else (false, r)

  abbrev pub enqueue_burst : List ℕ → List ℕ → ℕ × List ℕ
  enqueue_burst r xs = let n = min (size - length r) (length xs) in (n, r ++ take n xs)

  pub enqueue_ok : (r : List ℕ) (x : ℕ) → (enqueue r x).0 ≡ true → (enqueue r x).1 ≡ r ++ (x ∷ [])
  enqueue_ok r x h = ground arith

  pub enqueue_full : (r : List ℕ) (x : ℕ) → (enqueue r x).0 ≡ false → (enqueue r x).1 ≡ r
  enqueue_full r x h = ground arith

  -- A ring that refuses is full.
  pub enqueue_refused : (r : List ℕ) (x : ℕ) → (enqueue r x).0 ≡ false → size ≤ length r
  enqueue_refused r x h = ground arith

  abbrev pub ring_of : RingApi
  ring_of = record {
    Ring = List ℕ;
    items = λ r. r;
    enqueue = enqueue;
    enqueue_burst = enqueue_burst;
    dequeue_burst = dequeue_burst;
    items-enqueue_ok = enqueue_ok;
    items-enqueue_full = enqueue_full;
    enqueue_burst_bound = λ r xs. min-le_right (size - length r) (length xs);
    items-enqueue_burst = λ r xs. refl;
    dequeue_burst_bound = λ r n. length-take_bound n r;
    items-dequeue_burst = λ r n. sym (take-append-drop n r);
  }

abbrev pub bounded_ring : RingApi
bounded_ring = ring_of 4
