-- ===== src/Segregation/Loop/Counters.antt =====
-- The counters of the loop, and what a transmission leaves behind.
use dpdk_starter.Base.{
  ℕ, ◌+◌, ◌-◌, ◌≤◌, ◌≡◌, List, [], ◌∷◌, length, length-append, length-drop, drop, u64, arith,
}
use dpdk_starter.Packet.{Mbuf}
use dpdk_starter.Ring.{RingApi}
use dpdk_starter.Segregation.Loop.{
  State, Event, dispatch, dispatch_all, drain_control, drain_data, report, round, run, burst_size,
}
use dpdk_starter.Segregation.Loop.Ledger.{received_of}

module _ (api : RingApi) where
  open api use {dequeue_burst, dequeue_burst_bound}

  abbrev pub accounted : State api → ℕ
  accounted s = s.control_count + s.data_count + length s.freed

  dispatch-accounted :
      (frame : ℕ → Mbuf) (s : State api) (m : ℕ)
      → u64 (accounted (dispatch api frame s m)) ≡ u64 (accounted s + 1)
  unfolding dispatch
  dispatch-accounted frame s m = ground arith

  dispatch_all-accounted :
      (frame : ℕ → Mbuf) (s : State api) (ms : List ℕ)
      → u64 (accounted (dispatch_all api frame s ms)) ≡ u64 (accounted s + length ms)
  unfolding dispatch_all
  dispatch_all-accounted frame s [] = omega arith
  dispatch_all-accounted frame s (m ∷ ms) = omega (
    arith,
    dispatch_all-accounted frame (dispatch api frame s m) ms,
    dispatch-accounted frame s m,
  )

  drain_control-accounted :
      (s : State api) (k : ℕ) → accounted (drain_control api s k) ≡ accounted s
  unfolding drain_control
  drain_control-accounted s k = ground arith

  drain_data-accounted : (s : State api) (k : ℕ) → accounted (drain_data api s k) ≡ accounted s
  unfolding drain_data
  drain_data-accounted s k = ground arith

  report-accounted : (s : State api) (now : ℕ) → accounted (report api s now) ≡ accounted s
  unfolding report
  report-accounted s now = ground arith

  round-accounted :
      (frame : ℕ → Mbuf) (s : State api) (e : Event)
      → u64 (accounted (round api frame s e)) ≡ u64 (accounted s + length e.received)
  unfolding round
  round-accounted frame s e =
      let s₁ : State api = dispatch_all api frame s e.received in
      let s₂ : State api = drain_control api s₁ e.taken_control in
      let s₃ : State api = drain_data api s₂ e.taken_data in
      omega (
        arith,
        report-accounted s₃ e.now,
        drain_data-accounted s₂ e.taken_data,
        drain_control-accounted s₁ e.taken_control,
        dispatch_all-accounted frame s e.received,
      )

  -- After any rounds the two counters and the packets freed add up, modulo 2^64, to what they were
  -- and the packets received since.
  pub run-accounted :
      (frame : ℕ → Mbuf) (s : State api) (es : List Event)
      → u64 (accounted (run api frame s es)) ≡ u64 (accounted s + length (received_of es))
  unfolding run
  run-accounted frame s [] = omega arith
  run-accounted frame s (e ∷ es) = omega (
    arith,
    run-accounted frame (round api frame s e) es,
    round-accounted frame s e,
    length-append e.received (received_of es),
  )

  -- A drain of the control ring hands the driver at most 32 packets; all that the driver does not
  -- take, if it takes `k`, are left with no owner, and none of them is freed.
  pub drain_control-unsent :
      (s : State api) (k : ℕ)
      → let out = (dequeue_burst s.control_ring burst_size).0 in
        (length out ≤ 32)
        × (length (drain_control api s k).unsent ≡ length s.unsent + (length out - k))
        × ((drain_control api s k).freed ≡ s.freed)
  unfolding drain_control
  drain_control-unsent s k =
      let out : List ℕ = (dequeue_burst s.control_ring burst_size).0 in
      ground (
        arith,
        dequeue_burst_bound s.control_ring burst_size,
        length-append s.unsent (drop k out),
        length-drop k out,
      )
