-- ===== src/Ipc/Through/Tests.antt =====
-- The first number, with a ring of four entries as a list.
use dpdk_starter.Base.{◌≡◌, some, refl, [], ◌∷◌, map, arith}
use dpdk_starter.Ring.{RingApi}
use dpdk_starter.Ring.Bounded.{ring_of}
use dpdk_starter.Ring.Single.{ring_of-IsSized}
use dpdk_starter.Ipc.Runs.{Star, here, then_step}
use dpdk_starter.Ipc.Talk.{numbers}
use dpdk_starter.Ipc.Through.{
  counting, done, polling, State, next_message, send_message, lookup_ring, Step, next, send, find,
  launch,
}
use dpdk_starter.Ipc.Through.Ending.{through_can_end}

abbrev rings : RingApi
rings = ring_of 4

abbrev s₀ : State rings
s₀ = launch rings []

-- The number 0 is on the ring, in the cell 7.
abbrev s₁ : State rings
s₁ = record s₀ { heap = (7, 0) ∷ []; ring = 7 ∷ []; primary = counting 1; secondary = polling }

steps₁ : Star (Step rings) s₀ s₁
unfolding next_message send_message lookup_ring
steps₁ = then_step (then_step (then_step here (next 0 7 refl refl)) (send 0 7 refl)) (find refl)

through_can_end_example :
    (t : State rings) × Star (Step rings) s₁ t
    × (t.primary ≡ done)
    × (t.received ≡ map (λ v. some v) (numbers 10))
    × (t.heap ≡ [])
through_can_end_example = through_can_end rings 4 (ring_of-IsSized 4) (omega arith) refl steps₁
