-- ===== src/Ipc/SingleRingTests.antt =====
-- The first message on one ring of four entries as a list.
use dpdk_starter.Base.{ℕ, suc, ◌≤◌, ◌≡◌, ◌≢◌, refl, none, [], ◌∷◌, length, arith}
use dpdk_starter.Ring.{RingApi}
use dpdk_starter.Ring.Bounded.{ring_of}
use dpdk_starter.Ring.Single.{ring_of-IsSized, dequeue}
use dpdk_starter.Ipc.Runs.{Star, here, then_step}
use dpdk_starter.Ipc.Talk.{tens, numbers}
use dpdk_starter.Ipc.SingleRing.{
  counting, sending, waiting, done, faulted, polling, requested, replying, reporting, exited,
  crashed, State, next_message, send_exit, send_message, take_response, poll_response, take_request,
  poll_request, make_response, send_response, report_response, Step, next, send, poll_a, poll_b,
  make, reply, report, launch,
}
use dpdk_starter.Ipc.SingleRing.Protocol.{allocated, request, response}
use dpdk_starter.Ipc.SingleRing.Refine.{ring_view, Continues, Step-Continues}
use dpdk_starter.Ipc.SingleRing.Ending.{one_ring_can_end}
use dpdk_starter.Ipc.SingleRing.Order.{one_ring_in_order}

abbrev rings : RingApi
rings = ring_of 4

abbrev s₀ : State rings
s₀ = launch rings []

-- The number 0 is allocated at 7, in the ring, and with the secondary.
abbrev s₁ : State rings
s₁ = record s₀ { heap = (7, request 0) ∷ []; primary = sending 0 7 }

abbrev s₂ : State rings
s₂ = record s₁ { ring = 7 ∷ []; primary = waiting 0 }

abbrev s₃ : State rings
s₃ = record s₂ { ring = []; secondary = requested 7; seen = 0 ∷ [] }

-- The response at 8 is made, in the ring, and received.
abbrev s₄ : State rings
s₄ = record s₃ { heap = (8, response 0) ∷ []; secondary = replying 8 }

abbrev s₅ : State rings
s₅ = record s₄ { ring = 8 ∷ []; secondary = reporting 8 }

abbrev s₆ : State rings
s₆ = record s₅ { ring = []; heap = []; primary = counting 1; received = 0 ∷ [] }

-- The secondary reads the response that the primary has freed.
abbrev s₇ : State rings
s₇ = record s₆ { secondary = polling; reports = none ∷ [] }

ask : Step rings s₁ s₂
unfolding send_message
ask = send 0 7 refl

steps₂ : Star (Step rings) s₀ s₂
unfolding next_message send_exit
steps₂ = then_step (then_step here (next 0 7 refl refl)) ask

steps₇ : Star (Step rings) s₀ s₇
unfolding dequeue poll_response take_response poll_request take_request make_response send_response
    report_response
steps₇ =
    then_step
      (then_step
        (then_step (then_step (then_step steps₂ (poll_b refl)) (make 7 8 refl refl)) (reply 8 refl))
        (poll_a 0 refl))
      (report 8 refl)

Step-Continues_example :
    Continues rings 4
      (ring_of-IsSized 4)
      (omega arith)
      (allocated 0 7 none)
      (ring_view rings 4 (ring_of-IsSized 4) (omega arith) s₂)
Step-Continues_example =
    Step-Continues rings 4 (ring_of-IsSized 4) (omega arith) {s = s₁} {t = s₂} (allocated 0 7 none)
      refl (omega arith) ask

one_ring_in_order_example :
    (n m : ℕ) × (n ≤ m)
    × (m ≤ suc n)
    × (m ≤ 10)
    × (s₇.received ≡ tens n)
    × (s₇.seen ≡ numbers m)
    × (length (rings.items s₇.ring) ≤ 1)
    × (length s₇.heap ≤ 1)
    × (s₇.primary ≢ faulted)
    × (s₇.secondary ≢ crashed)
one_ring_in_order_example = one_ring_in_order rings 4 (ring_of-IsSized 4) (omega arith) refl steps₇

one_ring_can_end_example :
    (t : State rings) × Star (Step rings) s₂ t
    × (t.primary ≡ done)
    × (t.secondary ≡ exited)
    × (rings.items t.ring ≡ [])
    × (t.received ≡ tens 10)
    × (t.seen ≡ numbers 10)
    × (t.heap ≡ [])
one_ring_can_end_example = one_ring_can_end rings 4 (ring_of-IsSized 4) (omega arith) refl steps₂
