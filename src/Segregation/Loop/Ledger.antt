-- ===== src/Segregation/Loop/Ledger.antt =====
-- Where each received mbuf is: none is lost but those that the driver does not take.
use dpdk_starter.Base.{
  ℕ, ◌+◌, ◌≡◌, List, [], ◌∷◌, ◌++◌, count, count-append, count-take-drop, count-le-length, take,
  drop, length, ◌≤◌, arith,
}
use dpdk_starter.Packet.{Mbuf}
use dpdk_starter.Ring.{RingApi}
use dpdk_starter.Ring.Counting.{dequeue_burst-count}
use dpdk_starter.Segregation.Loop.{
  State, Event, dispatch, dispatch_all, drain_control, drain_data, report, round, run, burst_size,
}

abbrev pub received_of : List Event → List ℕ
received_of [] = []
received_of (e ∷ es) = e.received ++ received_of es

module _ (api : RingApi) where
  open api use {
    items, enqueue, dequeue_burst, items-enqueue_ok, items-enqueue_full, items-dequeue_burst,
  }

  -- How often `a` stands in the rings, and among the packets freed, sent, and not taken.
  abbrev pub held : ℕ → State api → ℕ
  held a s =
      count a (items s.control_ring)
      + count a (items s.data_ring)
      + count a s.freed
      + count a s.sent
      + count a s.unsent

  dispatch-held :
      (frame : ℕ → Mbuf) (s : State api) (m a : ℕ)
      → held a (dispatch api frame s m) ≡ held a s + count a (m ∷ [])
  unfolding dispatch
  dispatch-held frame s m a = ground (
    arith,
    items-enqueue_ok s.control_ring m,
    items-enqueue_full s.control_ring m,
    items-enqueue_ok s.data_ring m,
    items-enqueue_full s.data_ring m,
    count-append a (items s.control_ring) (m ∷ []),
    count-append a (items s.data_ring) (m ∷ []),
  )

  dispatch_all-held :
      (frame : ℕ → Mbuf) (s : State api) (ms : List ℕ) (a : ℕ)
      → held a (dispatch_all api frame s ms) ≡ held a s + count a ms
  unfolding dispatch_all
  dispatch_all-held frame s [] a = omega arith
  dispatch_all-held frame s (m ∷ ms) a =
      ground
        (arith, dispatch_all-held frame (dispatch api frame s m) ms a, dispatch-held frame s m a)

  -- Where a dequeued burst goes: nowhere if it is empty, else to `sent` and `unsent`.
  sent-count :
      (r : api.Ring) (s : State api) (taken a : ℕ)
      → let out = (dequeue_burst r burst_size).0 in
        (count a (s.sent ++ take taken out) + count a (s.unsent ++ drop taken out)
          ≡ count a s.sent + count a s.unsent + count a out)
        × (count a out ≤ length out)
  sent-count r s taken a =
      let out : List ℕ = (dequeue_burst r burst_size).0 in
      (
        omega (
          arith,
          count-append a s.sent (take taken out),
          count-append a s.unsent (drop taken out),
          count-take-drop a taken out,
        ),
        count-le-length a out,
      )

  drain_control-held : (s : State api) (taken a : ℕ) → held a (drain_control api s taken) ≡ held a s
  unfolding drain_control
  drain_control-held s taken a = ground (
    arith,
    dequeue_burst-count api s.control_ring burst_size a,
    sent-count s.control_ring s taken a,
  )

  drain_data-held : (s : State api) (taken a : ℕ) → held a (drain_data api s taken) ≡ held a s
  unfolding drain_data
  drain_data-held s taken a =
      ground
        (arith, dequeue_burst-count api s.data_ring burst_size a, sent-count s.data_ring s taken a)

  report-held : (s : State api) (now a : ℕ) → held a (report api s now) ≡ held a s
  unfolding report
  report-held s now a = ground arith

  round-held :
      (frame : ℕ → Mbuf) (s : State api) (e : Event) (a : ℕ)
      → held a (round api frame s e) ≡ held a s + count a e.received
  unfolding round
  round-held frame s e a =
      let s₁ : State api = dispatch_all api frame s e.received in
      let s₂ : State api = drain_control api s₁ e.taken_control in
      let s₃ : State api = drain_data api s₂ e.taken_data in
      omega (
        arith,
        report-held s₃ e.now a,
        drain_data-held s₂ e.taken_data a,
        drain_control-held s₁ e.taken_control a,
        dispatch_all-held frame s e.received a,
      )

  -- After any rounds, every mbuf stands in the two rings and among the packets freed, sent and not
  -- taken by the driver exactly as often as it did before, and as it was received since.
  pub run_conserves :
      (frame : ℕ → Mbuf) (s : State api) (es : List Event) (a : ℕ)
      → held a (run api frame s es) ≡ held a s + count a (received_of es)
  unfolding run
  run_conserves frame s [] a = omega arith
  run_conserves frame s (e ∷ es) a = omega (
    arith,
    run_conserves frame (round api frame s e) es a,
    round-held frame s e a,
    count-append a e.received (received_of es),
  )
