-- ===== src/Segregation/Loop/Sorting.antt =====
-- Control packets are in the control ring, and the others in the data ring.
use mathlib.Core.Path.{subst}
use dpdk_starter.Base.{
  ℕ, ◌≡◌, Bool, true, false, List, [], ◌∷◌, All, All-append, All-append_right, sym, refl, arith,
}
use dpdk_starter.Packet.{Mbuf}
use dpdk_starter.Ring.{RingApi}
use dpdk_starter.Segregation.Classify.{classify_packet}
use dpdk_starter.Segregation.Loop.{
  State, Event, dispatch, dispatch_all, drain_control, drain_data, report, round, run, burst_size,
}

module _ (api : RingApi) (frame : ℕ → Mbuf) where
  open api use {items, enqueue, dequeue_burst, items-enqueue_ok, items-enqueue_full}
  open api use {items-dequeue_burst}

  -- Every mbuf of the ring has this class.
  abbrev pub HasClass : Bool → api.Ring → Type 0
  HasClass c r = All (λ m. classify_packet (frame m) ≡ c) (items r)

  pub record IsSorted (s : State api) : Type 0 where
    pub control : HasClass true s.control_ring
    pub other : HasClass false s.data_ring

  HasClass-enqueue_cases :
      (c : Bool) (r : api.Ring) (m : ℕ)
      → classify_packet (frame m) ≡ c
      → HasClass c r
      → (b : Bool) → (enqueue r m).0 ≡ b
      → HasClass c (enqueue r m).1
  HasClass-enqueue_cases c r m e h true done =
      subst (All (λ m. classify_packet (frame m) ≡ c)) (sym (items-enqueue_ok r m done))
        (All-append (λ m. classify_packet (frame m) ≡ c) (items r) (m ∷ []) h (e, tt))
  HasClass-enqueue_cases c r m e h false full =
      subst (All (λ m. classify_packet (frame m) ≡ c)) (sym (items-enqueue_full r m full)) h

  HasClass-enqueue :
      (c : Bool) (r : api.Ring) (m : ℕ)
      → classify_packet (frame m) ≡ c
      → HasClass c r
      → HasClass c (enqueue r m).1
  HasClass-enqueue c r m e h = HasClass-enqueue_cases c r m e h (enqueue r m).0 refl

  HasClass-dequeue_burst :
      (c : Bool) (r : api.Ring) → HasClass c r → HasClass c (dequeue_burst r burst_size).1
  HasClass-dequeue_burst c r h =
      All-append_right (λ m. classify_packet (frame m) ≡ c) (dequeue_burst r burst_size).0
        (items (dequeue_burst r burst_size).1)
        (subst (All (λ m. classify_packet (frame m) ≡ c)) (items-dequeue_burst r burst_size) h)

  dispatch-IsSorted : (s : State api) (m : ℕ) → IsSorted s → IsSorted (dispatch api frame s m)
  unfolding dispatch
  dispatch-IsSorted s m h =
      ground (arith, HasClass-enqueue true s.control_ring m, HasClass-enqueue false s.data_ring m)

  dispatch_all-IsSorted :
      (s : State api) (ms : List ℕ) → IsSorted s → IsSorted (dispatch_all api frame s ms)
  unfolding dispatch_all
  dispatch_all-IsSorted s [] h = h
  dispatch_all-IsSorted s (m ∷ ms) h =
      dispatch_all-IsSorted (dispatch api frame s m) ms (dispatch-IsSorted s m h)

  drain_control-IsSorted : (s : State api) (k : ℕ) → IsSorted s → IsSorted (drain_control api s k)
  unfolding drain_control
  drain_control-IsSorted s k h = ground (arith, HasClass-dequeue_burst true s.control_ring)

  drain_data-IsSorted : (s : State api) (k : ℕ) → IsSorted s → IsSorted (drain_data api s k)
  unfolding drain_data
  drain_data-IsSorted s k h = ground (arith, HasClass-dequeue_burst false s.data_ring)

  report-IsSorted : (s : State api) (now : ℕ) → IsSorted s → IsSorted (report api s now)
  unfolding report
  report-IsSorted s now h = ground arith

  round-IsSorted : (s : State api) (e : Event) → IsSorted s → IsSorted (round api frame s e)
  unfolding round
  round-IsSorted s e h = report-IsSorted _ e.now (
      drain_data-IsSorted _ e.taken_data
        (drain_control-IsSorted _ e.taken_control (dispatch_all-IsSorted s e.received h)))

  -- If the control ring holds only packets classified as control, and the data ring only others,
  -- then this holds after any rounds too.
  pub run-IsSorted : (s : State api) (es : List Event) → IsSorted s → IsSorted (run api frame s es)
  unfolding run
  run-IsSorted s [] h = h
  run-IsSorted s (e ∷ es) h = run-IsSorted (round api frame s e) es (round-IsSorted s e h)
