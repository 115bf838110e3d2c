-- ===== src/Eventdev/Project.antt =====
-- eventdev/01project/main.c: one event goes from a port to another.
use dpdk_starter.Base.{
  ℕ, zero, suc, ◌<◌, ◌≡◌, sym, ap, ◌∙◌, Bool-cases, Option, none, some, Option-cases, inl, inr,
  List, [], ◌∷◌, ◌++◌, length, if◌then◌else◌, arith,
}
use dpdk_starter.Eventdev.{Event, EventApi, IsRoomy}

abbrev pub ev : Event
ev = record { queue_id = 0; flow_id = 1; value = 12345 }

module _ (api : EventApi) where
  open api use {Device, pending, enqueue, dequeue, pending-enqueue_ok, pending-dequeue_some}

  -- `while (rte_event_enqueue_burst(...) != 1)`, with `fuel` rounds at most.
  unfoldable pub enqueue_ev : ℕ → Device → Option Device
  enqueue_ev zero d = none
  enqueue_ev (suc fuel) d =
      let (ok, d') = enqueue d 0 ev in
      let again = enqueue_ev fuel d' in if ok then some d' else again

  -- `while (1)`, with `fuel` rounds at most; the value that is printed.
  unfoldable pub wait_event : ℕ → Device → Option ℕ
  wait_event zero d = none
  wait_event (suc fuel) d =
      let (out, d') = dequeue d 1 in
      let again = wait_event fuel d' in elim out [ none ↦ again | some e ↦ some e.value ]

  enqueue_ev_lem :
      (limit : ℕ) (d : Device)
      → IsRoomy api limit
      → 0 < limit
      → pending d ≡ []
      → (d' : Device) × (enqueue_ev 1 d ≡ some d') × (pending d' ≡ ev ∷ [])
  unfolding enqueue_ev
  enqueue_ev_lem limit d roomy pos e = elim (Bool-cases (enqueue d 0 ev).0) [
    | inl ok ↦ (
      (enqueue d 0 ev).1,
      ground (arith, ok),
      pending-enqueue_ok d 0 ev ok ∙ ap (λ es. es ++ (ev ∷ [])) e,
    )
    | inr full ↦ absurd (omega (arith, roomy.roomy d 0 ev full, ap length e))
  ]

  only_event :
      (e : Event) (older newer : List Event) → ev ∷ [] ≡ older ++ (e ∷ newer) → e.value ≡ 12345
  only_event e [] newer h = ground (arith, h)
  only_event e (x ∷ []) newer h = absurd (ground (arith, h))
  only_event e (x ∷ y ∷ older) newer h = absurd (ground (arith, h))

  wait_event_lem :
      (d : Device)
      → ((dequeue d 1).0 ≡ none → pending d ≡ [])
      → pending d ≡ ev ∷ []
      → wait_event 1 d ≡ some 12345
  unfolding wait_event
  wait_event_lem d serves e = elim (Option-cases (dequeue d 1).0) [
    | inl nothing ↦ absurd (ground (arith, serves nothing, e))
    | inr (out, got) ↦
        let (older, newer, before, after, first) = pending-dequeue_some d 1 out got in
        ground (arith, got, only_event out older newer (sym e ∙ before))
  ]

  -- On a device without events that takes one, and that serves port 1 whenever it has an event: both
  -- loops end in their first round, and the number printed is the 12345 that was sent.
  pub project_receives :
      (limit : ℕ) (d : Device)
      → IsRoomy api limit
      → 0 < limit
      → ((d : Device) → (dequeue d 1).0 ≡ none → pending d ≡ [])
      → pending d ≡ []
      → (d' : Device) × (enqueue_ev 1 d ≡ some d') × (wait_event 1 d' ≡ some 12345)
  project_receives limit d roomy pos serves e =
      let (d', sent, p) = enqueue_ev_lem limit d roomy pos e in
      (d', sent, wait_event_lem d' (serves d') p)
