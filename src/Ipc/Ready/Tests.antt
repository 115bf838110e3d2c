-- ===== src/Ipc/Ready/Tests.antt =====
-- A first check that is lost, and an answered one.
use dpdk_starter.Base.{◌≤◌, ◌<◌, ◌≡◌, ◌≢◌, ℕ, true, refl, [], ◌∷◌, ◌++◌, arith}
use dpdk_starter.Ring.{RingApi}
use dpdk_starter.Ring.Bounded.{ring_of}
use dpdk_starter.Ring.Single.{ring_of-IsSized}
use dpdk_starter.Ipc.Runs.{Star, here, then_step, Star-append}
use dpdk_starter.Ipc.Talk.{numbers}
use dpdk_starter.Ipc.Ready.{
  asking, counting, done, looking, starting, State, create_ring, send_check, await_ready,
  send_number, ready_cb, register_action, check_cb, drop_check, Step, create, ask, await, send,
  hear_reply, register, hear_check, ignore_check, launch,
}
use dpdk_starter.Ipc.Ready.Order.{ready_in_order, sent_by}
use dpdk_starter.Ipc.Ready.Ending.{ready_can_end}

abbrev rings : RingApi
rings = ring_of 31

abbrev s₀ : State rings
s₀ = launch rings []

abbrev s₁ : State rings
s₁ = record s₀ { primary = asking }

-- Both are up, and the primary has sent 0.
abbrev s₂ : State rings
s₂ = record s₁ { ring = 0 ∷ []; primary = counting 1; secondary = looking; secondary_ready = true }

lost : Star (Step rings) s₀ s₁
unfolding create_ring send_check drop_check
lost =
    then_step (then_step (then_step here (create refl)) (ask true refl))
      (ignore_check (omega arith) refl)

answered : Star (Step rings) s₁ (record s₁ { secondary = looking; secondary_ready = true })
unfolding send_check ready_cb register_action check_cb
answered =
    then_step
      (then_step (then_step (then_step here (register refl)) (ask true refl))
        (hear_check true (omega arith) (λ e. cc)))
      (hear_reply (omega arith) (λ e. cc))

sent_one : Star (Step rings) (record s₁ { secondary = looking; secondary_ready = true }) s₂
unfolding send_check await_ready send_number
sent_one = then_step (then_step (then_step here (ask true refl)) (await refl)) (send 0 refl)

steps₂ : Star (Step rings) s₀ s₂
steps₂ = Star-append lost (Star-append answered sent_one)

ready_in_order_example :
    (n : ℕ) × (n ≡ sent_by (s₂.primary))
    × (n ≤ 5)
    × (s₂.received ++ s₂.ring ≡ numbers n)
    × (0 < n → (s₂.secondary_ready ≡ true) × (s₂.secondary ≢ starting))
ready_in_order_example = ready_in_order rings 31 (ring_of-IsSized 31) (omega arith) refl steps₂

ready_can_end_example :
    (t : State rings) × Star (Step rings) s₂ t × (t.primary ≡ done) × (t.received ≡ numbers 5)
ready_can_end_example = ready_can_end rings 31 (ring_of-IsSized 31) (omega arith) refl steps₂
