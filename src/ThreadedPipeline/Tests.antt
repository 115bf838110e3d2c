-- ===== src/ThreadedPipeline/Tests.antt =====
-- A run of the three threads on two packets, with rings of 1023 entries as lists.
use dpdk_starter.Base.{ℕ, List, ◌+◌, ◌≡◌, refl, [], ◌∷◌, count, arith}
use dpdk_starter.Ring.{RingApi}
use dpdk_starter.Ring.Bounded.{ring_of, enqueue_refused}
use dpdk_starter.ThreadedPipeline.{
  State, busy, returned, rx_receive, rx_enqueue, parser_dequeue, parser_forward, tx_dequeue,
  tx_send, receive, queue, take_parse, forward, take_tx, send, Reach, here, next, launch,
}
use dpdk_starter.ThreadedPipeline.Conservation.{held, threads_conserve}
use dpdk_starter.ThreadedPipeline.Ending.{threads_can_end}
use dpdk_starter.ThreadedPipeline.Bounds.{IsCounted, Reach-IsCounted}

abbrev rings : RingApi
rings = ring_of 1023

abbrev s₀ : State rings
s₀ = launch rings [] []

-- Both packets are in the first ring.
abbrev s₃ : State rings
s₃ = record s₀ { rx_count = 2; rx = busy []; rx_to_parse = 7 ∷ 8 ∷ [] }

-- The parser has passed both on, and the driver has taken one of them.
abbrev s₇ : State rings
s₇ = record s₀ {
  rx_count = 2;
  rx = busy [];
  parser_count = 2;
  tx_count = 2;
  sent = 7 ∷ [];
  tx_freed = 8 ∷ [];
}

reach₃ : Reach rings s₀ (7 ∷ 8 ∷ []) s₃
unfolding rx_receive rx_enqueue
reach₃ =
    next (next (next here (receive (7 ∷ 8 ∷ []) refl refl (omega arith))) (queue 7 (8 ∷ []) refl))
      (queue 8 [] refl)

reach₇ : Reach rings s₀ (7 ∷ 8 ∷ []) s₇
unfolding parser_dequeue parser_forward tx_dequeue tx_send
reach₇ =
    next
      (next (next (next reach₃ (take_parse refl refl)) (forward (7 ∷ 8 ∷ []) refl))
        (take_tx refl refl))
      (send (7 ∷ 8 ∷ []) 1 refl (omega arith))

threads_conserve_example : held rings 8 s₇ ≡ held rings 8 s₀ + count 8 (7 ∷ 8 ∷ [])
threads_conserve_example = threads_conserve rings reach₇ 8

Reach-IsCounted_example : IsCounted rings (enqueue_refused 1023) 2 s₇
Reach-IsCounted_example = Reach-IsCounted rings (enqueue_refused 1023) refl refl reach₇

threads_can_end_example :
    (t : State rings) × (more : List ℕ) × Reach rings s₇ more t
    × (t.rx ≡ returned)
    × (t.parser ≡ returned)
    × (t.tx ≡ returned)
threads_can_end_example = threads_can_end rings (enqueue_refused 1023) refl refl reach₇
