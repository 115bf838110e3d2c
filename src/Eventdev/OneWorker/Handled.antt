-- ===== src/Eventdev/OneWorker/Handled.antt =====
-- The worker of eventdev/practice handles the one event.
use dpdk_starter.Base.{
  ℕ, ◌≡◌, ◌≢◌, refl, sym, ap, ◌∙◌, Bool, true, false, Bool-cases, ◌⊎◌, inl, inr, none, some,
  Option-cases, List, [], ◌∷◌, ◌++◌, arith,
}
use dpdk_starter.Ipc.Runs.{Star, Star-invariant}
use dpdk_starter.Eventdev.{Event, EventApi}
use dpdk_starter.Eventdev.OneWorker.{
  ev, Main, enqueuing, waiting, ended, Worker, absent, polling, got, State, enqueue_ev,
  event_worker, finish, Step, enqueues, polls, finishes, launch,
}

module _ (api : EventApi) where
  open api use {
    Device, pending, enqueue, dequeue, pending-enqueue_ok, pending-enqueue_full,
    pending-dequeue_some, pending-dequeue_none,
  }

  abbrev is_got : Worker → Bool
  is_got absent = false
  is_got polling = false
  is_got (got v f) = true

  -- Where the event is: still to come, on the device, or handled.
  abbrev Where : Main → Worker → List Event → Type 0
  Where enqueuing w ps = (ps ≡ []) × (is_got w ≡ false)
  Where waiting w ps = ((ps ≡ ev ∷ []) × (is_got w ≡ false)) ⊎ ((ps ≡ []) × (w ≡ got 42 1))
  Where ended w ps = ((ps ≡ ev ∷ []) × (w ≡ absent)) ⊎ ((ps ≡ []) × (w ≡ got 42 1))

  abbrev Keeps : State api → Type 0
  Keeps s = Where s.main s.worker (pending s.device)

  Where-move : (a b : Main) (w : Worker) (ps : List Event) → a ≡ b → Where a w ps → Where b w ps
  Where-move a b w ps e h = rw (sym e) h

  enqueue-Keeps : (s : State api) → s.main ≡ enqueuing → Keeps s → Keeps (enqueue_ev api s)
  unfolding enqueue_ev
  enqueue-Keeps s e h =
      let (empty, unread) : Where enqueuing s.worker (pending s.device) =
        Where-move s.main enqueuing s.worker (pending s.device) e h in
      elim (Bool-cases (enqueue s.device 0 ev).0) [
        | inl ok ↦
            rw ok
              (inl (pending-enqueue_ok s.device 0 ev ok ∙ ap (λ ps. ps ++ (ev ∷ [])) empty, unread))
        | inr full ↦ rw (full, e) ((pending-enqueue_full s.device 0 ev full ∙ empty, unread))
      ]

  only_event :
      (e : Event) (older newer : List Event)
      → ev ∷ [] ≡ older ++ (e ∷ newer)
      → (older ++ newer ≡ []) × (got e.value e.flow_id ≡ got 42 1)
  only_event e [] newer h = (ground (arith, h), ground (arith, h))
  only_event e (x ∷ []) newer h = absurd (ground (arith, h))
  only_event e (x ∷ y ∷ older) newer h = absurd (ground (arith, h))

  not_empty : (e : Event) (older newer : List Event) → [] ≢ older ++ (e ∷ newer)
  not_empty e [] newer h = cc
  not_empty e (x ∷ older) newer h = cc

  few : (a : Main) (w : Worker) (ps : List Event) → Where a w ps → (ps ≡ []) ⊎ (ps ≡ ev ∷ [])
  few enqueuing w ps (empty, unread) = inl empty
  few waiting w ps (inl (one, unread)) = inr one
  few waiting w ps (inr (empty, read)) = inl empty
  few ended w ps (inl (one, gone)) = inr one
  few ended w ps (inr (empty, read)) = inl empty

  worker_none :
      (s : State api)
      → (dequeue s.device 0).0 ≡ none
      → event_worker api s ≡ record s { device = (dequeue s.device 0).1 }
  unfolding event_worker
  worker_none s nothing = ground (arith, nothing)

  worker_some :
      (s : State api) (e : Event)
      → (dequeue s.device 0).0 ≡ some e
      → event_worker api s
        ≡ record s { device = (dequeue s.device 0).1; worker = got e.value e.flow_id }
  unfolding event_worker
  worker_some s e taken = ground (arith, taken)

  -- A dequeue leaves the device as it was, or takes the one event.
  worked :
      (s : State api)
      → Keeps s
      → ((pending (event_worker api s).device ≡ pending s.device)
          × ((event_worker api s).worker ≡ s.worker))
        ⊎ ((pending s.device ≡ ev ∷ [])
            × (pending (event_worker api s).device ≡ [])
            × ((event_worker api s).worker ≡ got 42 1))
  worked s h = elim (Option-cases (dequeue s.device 0).0) [
    | inl nothing ↦
        inl (rw (worker_none s nothing) ((pending-dequeue_none s.device 0 nothing, refl)))
    | inr (out, taken) ↦
        let (older, newer, before, after, first) = pending-dequeue_some s.device 0 out taken in
        elim (few s.main s.worker (pending s.device) h) [
          | inl empty ↦ absurd (not_empty out older newer (sym empty ∙ before))
          | inr one ↦
              let (rest, value) = only_event out older newer (sym one ∙ before) in
              inr (rw (worker_some s out taken) ((one, after ∙ rest, value)))
        ]
  ]

  worked-Where :
      (a : Main) (w : Worker) (ps : List Event)
      → w ≡ polling
      → ps ≡ ev ∷ []
      → Where a w ps
      → Where a (got 42 1) []
  worked-Where enqueuing w ps e one (empty, unread) = absurd (ground (arith, one, empty))
  worked-Where waiting w ps e one h = inr (refl, refl)
  worked-Where ended w ps e one h = inr (refl, refl)

  event_worker-main : (s : State api) → (event_worker api s).main ≡ s.main
  unfolding event_worker
  event_worker-main s = ground (arith, Option-cases (dequeue s.device 0).0)

  poll-Keeps : (s : State api) → s.worker ≡ polling → Keeps s → Keeps (event_worker api s)
  poll-Keeps s e h = elim (worked s h) [
    | inl (same, still) ↦ rw (event_worker-main s, same, still) h
    | inr (one, empty, read) ↦
        rw (event_worker-main s, empty, read)
          (worked-Where s.main s.worker (pending s.device) e one h)
  ]

  ended-Where : (w : Worker) (ps : List Event) → w ≢ polling → Where waiting w ps → Where ended w ps
  ended-Where absent ps idle (inl (one, unread)) = inl (one, refl)
  ended-Where polling ps idle h = absurd (idle refl)
  ended-Where (got v f) ps idle (inl (one, unread)) = absurd (ground (arith, unread))
  ended-Where w ps idle (inr read) = inr read

  finish-Keeps :
      (s : State api) → s.main ≡ waiting → s.worker ≢ polling → Keeps s → Keeps (finish api s)
  unfolding finish
  finish-Keeps s e idle h =
      ended-Where s.worker (pending s.device) idle
        (Where-move s.main waiting s.worker (pending s.device) e h)

  Step-Keeps : (s t : State api) → Keeps s → Step api s t → Keeps t
  Step-Keeps s t h (enqueues e) = enqueue-Keeps s e h
  Step-Keeps s t h (polls e) = poll-Keeps s e h
  Step-Keeps s t h (finishes e idle) = finish-Keeps s e idle h

  run-Keeps :
      {d : Device} {w : Worker} {s : State api}
      → pending d ≡ []
      → is_got w ≡ false
      → Star (Step api) (launch api d w) s
      → Keeps s
  run-Keeps e unread ss = Star-invariant {P = Keeps} Step-Keeps (e, unread) ss

  handled :
      (a : Main) (w : Worker) (ps : List Event) (v f : ℕ)
      → Where a w ps
      → w ≡ got v f
      → (v ≡ 42) × (f ≡ 1) × (ps ≡ [])
  handled enqueuing w ps v f (empty, unread) e = absurd (ground arith)
  handled waiting w ps v f (inl (one, unread)) e = absurd (ground arith)
  handled waiting w ps v f (inr (empty, read)) e = ground arith
  handled ended w ps v f (inl (one, gone)) e = absurd (ground arith)
  handled ended w ps v f (inr (empty, read)) e = ground arith

  -- On a device without events, in every interleaving: if the worker has printed, it has printed the 42 and
  -- the flow 1 of the event, and no event is left; and when the main lcore has returned, the worker has
  -- printed, or there is no worker and the event is still on the device.
  pub one_event_handled :
      {d : Device} {w : Worker} {s : State api}
      → pending d ≡ []
      → (w ≡ absent) ⊎ (w ≡ polling)
      → Star (Step api) (launch api d w) s
      → ((v f : ℕ) → s.worker ≡ got v f → (v ≡ 42) × (f ≡ 1) × (pending s.device ≡ []))
        × (s.main ≡ ended
            → ((pending s.device ≡ ev ∷ []) × (s.worker ≡ absent))
              ⊎ ((pending s.device ≡ []) × (s.worker ≡ got 42 1)))
  one_event_handled {d} {w} {s} e start ss =
      let h = run-Keeps e (ground arith) ss in
      (
        λ v f read. handled s.main s.worker (pending s.device) v f h read,
        λ over. Where-move s.main ended s.worker (pending s.device) over h,
      )
