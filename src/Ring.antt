-- ===== src/Ring.antt =====
-- The DPDK ring (lib/ring of DPDK, not part of the repository) as an interface: the calls that the
-- programs make, and what the DPDK manual says of them. A bounded list that meets it stands in
-- Ring/Bounded.antt.
pub mod Bounded
pub mod Counting
pub mod Single
use dpdk_starter.Base.{ℕ, ◌≤◌, ◌≡◌, Bool, true, false, List, [], ◌∷◌, ◌++◌, length, take}

-- An mbuf (or any object) is its address. `enqueue` returns whether the result is 0, and the ring
-- after the call; `dequeue` is `dequeue_burst` of one object. The manual: objects leave in the order
-- in which they came; a refused object leaves the ring as it was; `enqueue_burst` takes a prefix and
-- returns its length.
pub record RingApi : Type 1 where
  pub Ring : Type 0
  pub items : Ring → List ℕ
  pub enqueue : Ring → ℕ → Bool × Ring
  pub enqueue_burst : Ring → List ℕ → ℕ × Ring
  pub dequeue_burst : Ring → ℕ → List ℕ × Ring
  pub items-enqueue_ok :
      (r : Ring) (x : ℕ) → (enqueue r x).0 ≡ true → items (enqueue r x).1 ≡ items r ++ (x ∷ [])
  pub items-enqueue_full :
      (r : Ring) (x : ℕ) → (enqueue r x).0 ≡ false → items (enqueue r x).1 ≡ items r
  pub enqueue_burst_bound : (r : Ring) (xs : List ℕ) → (enqueue_burst r xs).0 ≤ length xs
  pub items-enqueue_burst :
      (r : Ring) (xs : List ℕ)
      → items (enqueue_burst r xs).1 ≡ items r ++ take (enqueue_burst r xs).0 xs
  pub dequeue_burst_bound : (r : Ring) (n : ℕ) → length (dequeue_burst r n).0 ≤ n
  pub items-dequeue_burst :
      (r : Ring) (n : ℕ) → items r ≡ (dequeue_burst r n).0 ++ items (dequeue_burst r n).1

-- What the manual says of a refusal: an object is refused only when the ring is full, and nothing is
-- dequeued only when it is empty.
pub record IsSized (api : RingApi) (capacity : ℕ) : Type 0 where
  pub roomy : (r : api.Ring) (x : ℕ) → (api.enqueue r x).0 ≡ false → capacity ≤ length (api.items r)
  pub serving : (r : api.Ring) → (api.dequeue_burst r 1).0 ≡ [] → api.items r ≡ []
