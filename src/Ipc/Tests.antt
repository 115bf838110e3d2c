-- ===== src/Ipc/Tests.antt =====
-- The first message, with rings of four entries as lists.
use dpdk_starter.Base.{◌≡◌, refl, [], ◌∷◌, arith}
use dpdk_starter.Ring.{RingApi}
use dpdk_starter.Ring.Bounded.{ring_of}
use dpdk_starter.Ring.Single.{ring_of-IsSized}
use dpdk_starter.Ipc.Runs.{Star, here, then_step}
use dpdk_starter.Ipc.Talk.{tens, numbers}
use dpdk_starter.Ipc.FullDuplex.{
  sending, waiting, done, exited, State, next_message, stop_secondary, send_message, Step, next,
  send, launch,
}
use dpdk_starter.Ipc.FullDuplex.Ending.{talk_can_end}

abbrev rings : RingApi
rings = ring_of 4

abbrev s₀ : State rings
s₀ = launch rings [] []

-- The number 0 is allocated at 7, then in the ring.
abbrev s₁ : State rings
s₁ = record s₀ { heap = (7, 0) ∷ []; primary = sending 0 7 }

abbrev s₂ : State rings
s₂ = record s₁ { ring = 7 ∷ []; primary = waiting 0 }

allocate : Step rings s₀ s₁
unfolding next_message stop_secondary
allocate = next 0 7 refl refl

ask : Step rings s₁ s₂
unfolding send_message
ask = send 0 7 refl

steps₂ : Star (Step rings) s₀ s₂
steps₂ = then_step (then_step here allocate) ask

talk_can_end_example :
    (t : State rings) × Star (Step rings) s₂ t
    × (t.primary ≡ done)
    × (t.secondary ≡ exited)
    × (t.received ≡ tens 10)
    × (t.seen ≡ numbers 10)
    × (t.heap ≡ [])
talk_can_end_example = talk_can_end rings 4 (ring_of-IsSized 4) (omega arith) refl refl steps₂
