-- ===== src/Eventdev/Processes.antt =====
-- inter_process_comm/eventdev: primary.c puts mbufs on the event device, and secondary.c takes them off
-- and frees them. A schedule says which process runs its loop next, with what rte_pktmbuf_alloc returns.
use dpdk_starter.Base.{
  ℕ, ◌+◌, ◌≡◌, ap, Bool-cases, Option, none, some, Option-cases, inl, inr, List, [], ◌∷◌, ◌++◌,
  count, count-append, if◌then◌else◌, arith,
}
use dpdk_starter.Eventdev.{Event, EventApi}
use dpdk_starter.Eventdev.Parsing.{occurs, occurs-append}

-- A round of the loop of `primary`, with the mbuf or NULL, or of `secondary`.
pub data Turn : Type 0 where
  primary : Option ℕ → Turn
  secondary : Turn

module _ (api : EventApi) where
  open api use {
    Device, pending, enqueue, dequeue, pending-enqueue_ok, pending-enqueue_full,
    pending-dequeue_some, pending-dequeue_none,
  }

  -- The device, the mbufs that the pool has given, those freed, and those that the device has refused,
  -- which the primary forgets.
  pub record State : Type 0 where
    pub device : Device
    pub allocated : List ℕ
    pub freed : List ℕ
    pub lost : List ℕ

  abbrev pub launch : Device → State
  launch d = record { device = d; allocated = []; freed = []; lost = [] }

  abbrev pub event_of : ℕ → Event
  event_of m = record { queue_id = 0; flow_id = 0; value = m }

  -- The body of the primary's loop; the result of the enqueue is not looked at.
  unfoldable pub send_mbuf : State → Option ℕ → State
  send_mbuf s none = s
  send_mbuf s (some m) =
      let (ok, d) = enqueue s.device 0 (event_of m) in
      record s {
        device = d;
        allocated = s.allocated ++ (m ∷ []);
        lost = if ok then s.lost else s.lost ++ (m ∷ []);
      }

  -- The body of the secondary's loop.
  unfoldable pub receive_mbuf : State → State
  receive_mbuf s =
      let (out, d) = dequeue s.device 1 in
      elim out [
        | none ↦ record s { device = d }
        | some ev ↦ record s { device = d; freed = s.freed ++ (ev.value ∷ []) }
      ]

  unfoldable pub run : State → List Turn → State
  run s [] = s
  run s (primary alloc ∷ turns) = run (send_mbuf s alloc) turns
  run s (secondary ∷ turns) = run (receive_mbuf s) turns

  -- Where the mbuf is, beyond what the pool has given.
  abbrev pub whereabouts : State → ℕ → ℕ
  whereabouts s m = count m s.freed + count m s.lost + occurs m (pending s.device)

  abbrev Balanced : State → ℕ → Type 0
  Balanced s m = whereabouts s m ≡ count m s.allocated

  send_mbuf-Balanced :
      (s : State) (alloc : Option ℕ) (m : ℕ) → Balanced s m → Balanced (send_mbuf s alloc) m
  unfolding send_mbuf
  send_mbuf-Balanced s none m h = h
  send_mbuf-Balanced s (some p) m h = elim (Bool-cases (enqueue s.device 0 (event_of p)).0) [
    | inl ok ↦ ground (
      arith,
      ok,
      h,
      ap (occurs m) (pending-enqueue_ok s.device 0 (event_of p) ok),
      occurs-append m (pending s.device) (event_of p ∷ []),
      count-append m s.allocated (p ∷ []),
    )
    | inr full ↦ ground (
      arith,
      full,
      h,
      ap (occurs m) (pending-enqueue_full s.device 0 (event_of p) full),
      count-append m s.allocated (p ∷ []),
      count-append m s.lost (p ∷ []),
    )
  ]

  receive_mbuf-Balanced : (s : State) (m : ℕ) → Balanced s m → Balanced (receive_mbuf s) m
  unfolding receive_mbuf
  receive_mbuf-Balanced s m h = elim (Option-cases (dequeue s.device 1).0) [
    | inl nothing ↦
        ground (arith, nothing, h, ap (occurs m) (pending-dequeue_none s.device 1 nothing))
    | inr (ev, got) ↦
        let (older, newer, before, after, first) = pending-dequeue_some s.device 1 ev got in
        ground (
          arith,
          got,
          h,
          ap (occurs m) before,
          ap (occurs m) after,
          occurs-append m older newer,
          occurs-append m older (ev ∷ newer),
          count-append m s.freed (ev.value ∷ []),
        )
  ]

  run-Balanced : (s : State) (turns : List Turn) (m : ℕ) → Balanced s m → Balanced (run s turns) m
  unfolding run
  run-Balanced s [] m h = h
  run-Balanced s (primary alloc ∷ turns) m h =
      run-Balanced (send_mbuf s alloc) turns m (send_mbuf-Balanced s alloc m h)
  run-Balanced s (secondary ∷ turns) m h =
      run-Balanced (receive_mbuf s) turns m (receive_mbuf-Balanced s m h)

  -- From a device without events, in every order of the two processes: each mbuf that the pool has given
  -- has been freed by the secondary, is on the device, or was refused and lost, as often as the pool
  -- has given it.
  pub processes_balance :
      (d : Device) (turns : List Turn) (m : ℕ)
      → pending d ≡ []
      → whereabouts (run (launch d) turns) m ≡ count m (run (launch d) turns).allocated
  processes_balance d turns m e = run-Balanced (launch d) turns m (ground (arith, ap (occurs m) e))
