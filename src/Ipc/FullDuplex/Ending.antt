-- ===== src/Ipc/FullDuplex/Ending.antt =====
-- What the two processes have said when they end, and that they can always end.
use dpdk_starter.Base.{
  ℕ, suc, ◌≤◌, ◌<◌, ◌≡◌, ◌≢◌, refl, sym, ap, ◌∙◌, Bool-cases, ◌⊎◌, inl, inr, [], length, ltb, arith,
}
use dpdk_starter.Ring.{RingApi, IsSized}
use dpdk_starter.Ring.Single.{enqueue_room, dequeue_cons}
use dpdk_starter.Ipc.Runs.{Star, Star-invariant, Star-descend}
use dpdk_starter.Ipc.Memory.{mul_int}
use dpdk_starter.Ipc.Talk.{tens, numbers}
use dpdk_starter.Ipc.FullDuplex.{
  done, faulted, exited, crashed, State, next_message, stop_secondary, send_message, receive_reply,
  take_message, make_reply, send_reply, Step, next, send, receive, take, make, reply, launch,
}
use dpdk_starter.Ipc.FullDuplex.Protocol.{
  Phase, ready, allocated, asked, taken, answering, answered, stopping, over, view_of, InRange,
  Next, allocates, asks, takes, answers, replies, receives, stops, ends, left, Next-left,
  Next-InRange,
}
use dpdk_starter.Ipc.FullDuplex.Refine.{view, Step-Follows}

module _ (api : RingApi) (capacity : ℕ) (sized : IsSized api capacity) (room : 0 < capacity) where
  open api use {Ring, items}

  -- The state looks like a phase.
  abbrev InPhase : State api → Type 0
  InPhase s = (c : Phase) × (view api capacity sized room s ≡ view_of c) × InRange c

  Step-InPhase : (s t : State api) → InPhase s → Step api s t → InPhase t
  Step-InPhase s t (c, h, r) st = elim (Step-Follows api capacity sized room c h r st) [
    | inl e ↦ (c, e, r)
    | inr (d, n, e) ↦ (d, e, Next-InRange r n)
  ]

  -- The step that leads to the next phase.
  abbrev Advance : State api → Phase → Type 0
  Advance s c =
      (t : State api) × Step api s t
      × (d : Phase) × Next c d
      × (view api capacity sized room t ≡ view_of d)

  Advance-ready :
      (s : State api) (i : ℕ)
      → view api capacity sized room s ≡ view_of (ready i)
      → i ≤ 10
      → Advance s (ready i)
  unfolding next_message stop_secondary
  Advance-ready s i h r = elim (Bool-cases (ltb i 10)) [
    | inl less ↦ (
      next_message api s i 0,
      next i 0 (ground (arith, h)) (ground (arith, h)),
      allocated i 0,
      allocates i 0 (ground arith),
      ground (arith, h),
    )
    | inr more ↦
        let last : i ≡ 10 = ground arith in
        (
          next_message api s i 0,
          next i 0 (ground (arith, h)) (ground (arith, h)),
          stopping 0,
          stops i 0 last,
          ground
              (arith, h, ap tens last, ap numbers last, enqueue_room api capacity sized s.ring 0),
        )
  ]

  advance :
      (s : State api) (c : Phase)
      → view api capacity sized room s ≡ view_of c
      → InRange c
      → 0 < left c
      → Advance s c
  unfolding send_message receive_reply take_message make_reply send_reply
  advance s (ready i) h r k = Advance-ready s i h r
  advance s (allocated i p) h r k = (
    send_message api s i p,
    send i p (ground (arith, h)),
    asked i p,
    asks i p,
    ground (arith, h, enqueue_room api capacity sized s.ring p),
  )
  advance s (asked i p) h r k = (
    take_message api s,
    take (ground (arith, h)),
    taken i,
    takes i p,
    ground (arith, h, r, dequeue_cons api capacity sized s.ring p []),
  )
  advance s (taken i) h r k = (
    make_reply api s (mul_int i 10) 0,
    make (mul_int i 10) 0 (ground (arith, h)) (ground (arith, h)),
    answering i 0,
    answers i 0,
    ground (arith, h),
  )
  advance s (answering i q) h r k = (
    send_reply api s q,
    reply q (ground (arith, h)),
    answered i q,
    replies i q,
    ground (arith, h, enqueue_room api capacity sized s.ring2 q),
  )
  advance s (answered i q) h r k = (
    receive_reply api s i,
    receive i (ground (arith, h)),
    ready (suc i),
    receives i q,
    ground (arith, h, dequeue_cons api capacity sized s.ring2 q []),
  )
  advance s (stopping p) h r k = (
    take_message api s,
    take (ground (arith, h)),
    over,
    ends p,
    ground (arith, h, dequeue_cons api capacity sized s.ring p []),
  )
  advance s over h r k = absurd (omega arith)

  at_end : (c : Phase) → InRange c → left c ≤ 0 → view_of c ≡ view_of over
  at_end over r le = refl
  at_end (ready i) r le = absurd (omega arith)
  at_end (allocated i p) r le = absurd (omega arith)
  at_end (asked i p) r le = absurd (omega arith)
  at_end (taken i) r le = absurd (omega arith)
  at_end (answering i q) r le = absurd (omega arith)
  at_end (answered i q) r le = absurd (omega arith)
  at_end (stopping p) r le = absurd (omega arith)

  abbrev IsOver : State api → Type 0
  IsOver s = view api capacity sized room s ≡ view_of over

  progress :
      (c : Phase) (s : State api)
      → (view api capacity sized room s ≡ view_of c) × InRange c
      → IsOver s
        ⊎ ((t : State api) × Step api s t
            × (d : Phase) × ((view api capacity sized room t ≡ view_of d) × InRange d)
            × (left d < left c))
  progress c s (h, r) = elim (Bool-cases (ltb 0 (left c))) [
    | inl more ↦
        let (t, st, d, nx, e) = advance s c h r (ground arith) in
        inr (t, st, d, (e, Next-InRange r nx), Next-left r nx)
    | inr none_left ↦ inl (h ∙ at_end c r (ground arith))
  ]

  launch-InPhase : (r r2 : Ring) → items r ≡ [] → items r2 ≡ [] → InPhase (launch api r r2)
  launch-InPhase r r2 e e2 = (ready 0, ground arith, omega arith)

  -- The messages of a phase: `n` replies have been received, and `m` messages seen.
  phase_logs :
      (c : Phase)
      → InRange c
      → (n m : ℕ) × (n ≤ m)
        × (m ≤ suc n)
        × (m ≤ 10)
        × ((view_of c).received ≡ tens n)
        × ((view_of c).seen ≡ numbers m)
        × (length (view_of c).heap ≤ 1)
        × ((view_of c).primary ≢ faulted)
        × ((view_of c).secondary ≢ crashed)
  phase_logs (ready i) r =
      (i, i, omega arith, omega arith, r, refl, refl, omega arith, (λ e. cc), (λ e. cc))
  phase_logs (allocated i p) r =
      (i, i, omega arith, omega arith, omega arith, refl, refl, omega arith, (λ e. cc), (λ e. cc))
  phase_logs (asked i p) r =
      (i, i, omega arith, omega arith, omega arith, refl, refl, omega arith, (λ e. cc), (λ e. cc))
  phase_logs (taken i) r =
      (i, suc i, omega arith, omega arith, r, refl, refl, omega arith, (λ e. cc), (λ e. cc))
  phase_logs (answering i q) r =
      (i, suc i, omega arith, omega arith, r, refl, refl, omega arith, (λ e. cc), (λ e. cc))
  phase_logs (answered i q) r =
      (i, suc i, omega arith, omega arith, r, refl, refl, omega arith, (λ e. cc), (λ e. cc))
  phase_logs (stopping p) r =
      (10, 10, omega arith, omega arith, omega arith, refl, refl, omega arith, (λ e. cc), (λ e. cc))
  phase_logs over r =
      (10, 10, omega arith, omega arith, omega arith, refl, refl, omega arith, (λ e. cc), (λ e. cc))

  -- With two empty rings at the start, in every interleaving: the primary has received the first `n`
  -- of the replies 0, 10, 20 and so on, in this order, and the secondary has seen the first `m` of the
  -- numbers 0, 1, 2 and so on, where `m` is `n` or `n + 1` and at most 10; at most one message is
  -- allocated, and no process reads a message that has been freed.
  pub talk_in_order :
      {r r2 : Ring} {s : State api}
      → items r ≡ []
      → items r2 ≡ []
      → Star (Step api) (launch api r r2) s
      → (n m : ℕ) × (n ≤ m)
        × (m ≤ suc n)
        × (m ≤ 10)
        × (s.received ≡ tens n)
        × (s.seen ≡ numbers m)
        × (length s.heap ≤ 1)
        × (s.primary ≢ faulted)
        × (s.secondary ≢ crashed)
  talk_in_order {r} {r2} {s} e e2 ss =
      let (c, h, i) = Star-invariant {P = InPhase} Step-InPhase (launch-InPhase r r2 e e2) ss in
      let (n, m, le, ge, ten, got, saw, one, ok, ok2) = phase_logs c i in
      (
        n,
        m,
        le,
        ge,
        ten,
        ap (λ v. v.received) h ∙ got,
        ap (λ v. v.seen) h ∙ saw,
        ground (arith, h, one),
        (λ f. ok (ap (λ v. v.primary) (sym h) ∙ f)),
        (λ f. ok2 (ap (λ v. v.secondary) (sym h) ∙ f)),
      )

  -- With two empty rings at the start, the processes never get stuck: from every state that they can
  -- reach, in any interleaving, steps lead to the end of both, where the ten replies 0, 10, and so on
  -- to 90 have been received, the numbers 0 to 9 seen, and every message freed.
  pub talk_can_end :
      {r r2 : Ring} {s : State api}
      → items r ≡ []
      → items r2 ≡ []
      → Star (Step api) (launch api r r2) s
      → (t : State api) × Star (Step api) s t
        × (t.primary ≡ done)
        × (t.secondary ≡ exited)
        × (t.received ≡ tens 10)
        × (t.seen ≡ numbers 10)
        × (t.heap ≡ [])
  talk_can_end {r} {r2} {s} e e2 ss =
      let (c, h, i) = Star-invariant {P = InPhase} Step-InPhase (launch-InPhase r r2 e e2) ss in
      let (t, later, f) = Star-descend left progress (suc (left c)) c s (h, i) (omega arith) in
      (
        t,
        later,
        ap (λ v. v.primary) f,
        ap (λ v. v.secondary) f,
        ap (λ v. v.received) f,
        ap (λ v. v.seen) f,
        ap (λ v. v.heap) f,
      )
