-- ===== src/LcoreRing/Tests.antt =====
-- The usual run, and the ring that is freed early, on a ring of 1023 entries as a list.
use dpdk_starter.Base.{ℕ, ◌≡◌, Option, length, refl, some, [], ◌∷◌}
use dpdk_starter.Ring.{RingApi}
use dpdk_starter.Ring.Bounded.{ring_of}
use dpdk_starter.Ring.Single.{dequeue}
use dpdk_starter.Ipc.Runs.{Star, here, then_step}
use dpdk_starter.LcoreRing.{
  sent, printed, faulted, ended, State, allocate, send, receive, Step, allocates, sends, receives,
  launch,
}
use dpdk_starter.LcoreRing.Runs.{receive_safe}

abbrev rings : RingApi
rings = ring_of 1023

abbrev s₃ : State rings
s₃ = record (launch rings []) { heap = (7, 20) ∷ []; sender = sent; receiver = printed (some 20) }

received : Star (Step rings) (launch rings []) s₃
unfolding allocate send receive dequeue
received =
    then_step (then_step (then_step here (allocates 7 refl refl)) (sends 7 refl)) (receives refl)

receive_safe_example :
    ((o : Option ℕ)
      → s₃.receiver ≡ printed o
      → (o ≡ some 20) × (s₃.sender ≡ sent) × (length s₃.heap ≡ 1))
    × (s₃.receiver ≡ faulted → (s₃.main ≡ ended) × (s₃.sender ≡ sent))
receive_safe_example = receive_safe rings refl received
