-- ===== src/SimpleRing/Tests.antt =====
-- The first number on a ring of four entries as a list.
use dpdk_starter.Base.{
  ℕ, suc, ◌≤◌, ◌≡◌, refl, none, some, List, [], ◌∷◌, map, length, count, ◌⊎◌, arith,
}
use dpdk_starter.Ipc.Memory.{load}
use dpdk_starter.Rising.{Rises}
use dpdk_starter.Ring.{RingApi}
use dpdk_starter.Ring.Bounded.{ring_of}
use dpdk_starter.Ring.Single.{dequeue}
use dpdk_starter.Ipc.Runs.{Star, here, then_step}
use dpdk_starter.SimpleRing.{
  State, head, enqueuing, reporting, produce, enqueue_data, report_data, consume, Step, make, put,
  report, take, launch,
}
use dpdk_starter.SimpleRing.Counting.{count_in_order}

abbrev rings : RingApi
rings = ring_of 4

abbrev s₀ : State rings
s₀ = launch rings []

-- The number 0 is allocated at 7, and on the ring.
abbrev s₁ : State rings
s₁ = record s₀ { counter = 1; made = 1; heap = (7, 0) ∷ []; producer = enqueuing 7 }

abbrev s₂ : State rings
s₂ = record s₁ { ring = 7 ∷ []; producer = reporting 7 }

-- The consumer has freed it before the producer prints it.
abbrev s₃ : State rings
s₃ = record s₂ { ring = []; heap = []; printed = some 0 ∷ [] }

abbrev s₄ : State rings
s₄ = record s₃ { producer = head; reports = none ∷ [] }

steps₄ : Star (Step rings) s₀ s₄
unfolding produce enqueue_data report_data consume dequeue
steps₄ =
    then_step
      (then_step (then_step (then_step here (make 7 refl refl refl)) (put 7 refl)) (take refl))
      (report 7 refl)

count_in_order_example :
    (vs : List ℕ) × (s₄.printed ≡ map (λ v. some v) vs)
    × Rises 0 vs s₄.made
    × (length (rings.items s₄.ring) ≤ length s₄.heap)
    × (length s₄.heap ≤ suc (length (rings.items s₄.ring)))
    × ((p v : ℕ)
        → load p s₄.heap ≡ some v
        → (1 ≤ count p (rings.items s₄.ring)) ⊎ (s₄.producer ≡ enqueuing p))
count_in_order_example = count_in_order rings refl steps₄ (omega arith)
