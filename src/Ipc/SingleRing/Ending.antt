-- ===== src/Ipc/SingleRing/Ending.antt =====
-- What the two processes on one ring have said when they end, and that they can always end.
use dpdk_starter.Base.{
  ℕ, suc, ◌+◌, ◌*◌, ◌-◌, ◌≤◌, ◌<◌, ◌≡◌, ap, Bool-cases, Option, none, some, ◌⊎◌, inl, inr, [], ltb,
  arith,
}
use dpdk_starter.Ring.{RingApi, IsSized}
use dpdk_starter.Ring.Single.{enqueue_room, dequeue_cons}
use dpdk_starter.Ipc.Runs.{Star, Star-invariant, Star-descend}
use dpdk_starter.Ipc.Talk.{tens, numbers}
use dpdk_starter.Ipc.SingleRing.{
  done, reporting, exited, State, next_message, send_exit, send_message, take_response,
  poll_response, return_message, take_request, poll_request, put_back, make_response, send_response,
  report_response, Step, next, send, poll_a, back_a, poll_b, back_b, make, reply, report, launch,
}
use dpdk_starter.Ipc.SingleRing.Protocol.{
  Phase, ready, allocated, asked, borrowed, taken, answering, answered, kept, stopping, over,
  view_of, InRange, Next, reports_ready, reports_allocated, reports_asked, reports_borrowed,
  reports_answered, reports_stopping, Next-InRange,
}
use dpdk_starter.Ipc.SingleRing.Refine.{ring_view, Step-Continues}

-- How many phases are to come at least.
abbrev pending : Option ℕ → ℕ
pending none = 0
pending (some q) = 1

abbrev left : Phase → ℕ
left (ready i o) = 10 * (10 - i) + 2 + pending o
left (allocated i p o) = 10 * (10 - i) + 1 + pending o
left (asked i p o) = 10 * (10 - i) + pending o
left (borrowed i p o) = 10 * (10 - i) + 1 + pending o
left (taken i p) = 10 * (10 - i) - 1
left (answering i q) = 10 * (10 - i) - 2
left (answered i q o) = 10 * (10 - i) - 5 + pending o
left (kept i q) = 10 * (10 - i) - 4
left (stopping p o) = 1 + pending o
left over = 0

module _ (api : RingApi) (capacity : ℕ) (sized : IsSized api capacity) (room : 0 < capacity) where
  open api use {Ring, items}

  abbrev pub LooksLike : State api → Phase → Type 0
  LooksLike s c = ring_view api capacity sized room s ≡ view_of c

  -- The state looks like a phase.
  abbrev pub InPhase : State api → Type 0
  InPhase s = (c : Phase) × LooksLike s c × InRange c

  pub Step-InPhase : (s t : State api) → InPhase s → Step api s t → InPhase t
  Step-InPhase s t (c, h, r) st = elim (Step-Continues api capacity sized room c h r st) [
    | inl e ↦ (c, e, r)
    | inr (d, n, e) ↦ (d, e, Next-InRange r n)
  ]

  -- A step that leads nearer to the end.
  abbrev Advance : State api → Phase → Type 0
  Advance s c =
      (t : State api) × Step api s t × (d : Phase) × (LooksLike t d × InRange d) × (left d < left c)

  -- The secondary's report comes first.
  Advance-report :
      (s : State api) (c d : Phase) (q : ℕ)
      → s.secondary ≡ reporting q
      → InRange c
      → Next c d
      → LooksLike (report_response api s q) d
      → left d < left c
      → Advance s c
  Advance-report s c d q e r n h less =
      (report_response api s q, report q e, d, (h, Next-InRange r n), less)

  Advance-ready :
      (s : State api) (i : ℕ) → LooksLike s (ready i none) → i ≤ 10 → Advance s (ready i none)
  unfolding next_message send_exit
  Advance-ready s i h r = elim (Bool-cases (ltb i 10)) [
    | inl less ↦ (
      next_message api s i 0,
      next i 0 (ground (arith, h)) (ground (arith, h)),
      allocated i 0 none,
      (ground (arith, h), ground arith),
      omega arith,
    )
    | inr more ↦
        let last : i ≡ 10 = ground arith in
        (
          next_message api s i 0,
          next i 0 (ground (arith, h)) (ground (arith, h)),
          stopping 0 none,
          (
            ground
                (arith, h, ap tens last, ap numbers last, enqueue_room api capacity sized s.ring 0),
            tt,
          ),
          omega arith,
        )
  ]

  advance : (s : State api) (c : Phase) → LooksLike s c → InRange c → LooksLike s over ⊎ Advance s c
  unfolding send_message poll_response take_response return_message poll_request take_request
      put_back make_response send_response report_response
  advance s (ready i none) h r = inr (Advance-ready s i h r)
  advance s (allocated i p none) h r = inr (
    send_message api s i p,
    send i p (ground (arith, h)),
    asked i p none,
    (ground (arith, h, enqueue_room api capacity sized s.ring p), r),
    omega arith,
  )
  advance s (asked i p none) h r = inr (
    poll_request api s,
    poll_b (ground (arith, h)),
    taken i p,
    (ground (arith, h, dequeue_cons api capacity sized s.ring p []), r),
    omega arith,
  )
  advance s (borrowed i p none) h r = inr (
    return_message api s i p,
    back_a i p (ground (arith, h)),
    asked i p none,
    (ground (arith, h, enqueue_room api capacity sized s.ring p), r),
    omega arith,
  )
  advance s (taken i p) h r = inr (
    make_response api s p (suc p),
    make p (suc p) (ground (arith, h)) (ground (arith, h)),
    answering i (suc p),
    (ground (arith, h), r),
    omega arith,
  )
  advance s (answering i q) h r = inr (
    send_response api s q,
    reply q (ground (arith, h)),
    answered i q (some q),
    (ground (arith, h, enqueue_room api capacity sized s.ring q), r),
    omega arith,
  )
  advance s (answered i q none) h r = inr (
    poll_response api s i,
    poll_a i (ground (arith, h)),
    ready (suc i) none,
    (ground (arith, h, dequeue_cons api capacity sized s.ring q []), omega arith),
    omega arith,
  )
  advance s (kept i q) h r = inr (
    put_back api s q,
    back_b q (ground (arith, h)),
    answered i q none,
    (ground (arith, h, enqueue_room api capacity sized s.ring q), r),
    omega arith,
  )
  advance s (stopping p none) h r = inr (
    poll_request api s,
    poll_b (ground (arith, h)),
    over,
    (ground (arith, h, dequeue_cons api capacity sized s.ring p []), tt),
    omega arith,
  )
  advance s over h r = inl h
  advance s (ready i (some q)) h r = inr (
      Advance-report s (ready i (some q)) (ready i none) q (ground (arith, h)) r (reports_ready i q)
        (ground (arith, h)) (omega arith))
  advance s (allocated i p (some q)) h r = inr (
      Advance-report s (allocated i p (some q)) (allocated i p none) q (ground (arith, h)) r
        (reports_allocated i p q) (ground (arith, h)) (omega arith))
  advance s (asked i p (some q)) h r = inr (
      Advance-report s (asked i p (some q)) (asked i p none) q (ground (arith, h)) r
        (reports_asked i p q) (ground (arith, h)) (omega arith))
  advance s (borrowed i p (some q)) h r = inr (
      Advance-report s (borrowed i p (some q)) (borrowed i p none) q (ground (arith, h)) r
        (reports_borrowed i p q) (ground (arith, h)) (omega arith))
  advance s (answered i p (some q)) h r = inr (
      Advance-report s (answered i p (some q)) (answered i p none) q (ground (arith, h)) r
        (reports_answered i p q) (ground (arith, h)) (omega arith))
  advance s (stopping p (some q)) h r = inr (
      Advance-report s (stopping p (some q)) (stopping p none) q (ground (arith, h)) tt
        (reports_stopping p q) (ground (arith, h)) (omega arith))

  progress :
      (c : Phase) (s : State api)
      → LooksLike s c × InRange c
      → LooksLike s over
        ⊎ ((t : State api) × Step api s t
            × (d : Phase) × (LooksLike t d × InRange d)
            × (left d < left c))
  progress c s (h, r) = advance s c h r

  pub launch-InPhase : (r : Ring) → items r ≡ [] → InPhase (launch api r)
  launch-InPhase r e = (ready 0 none, ground arith, omega arith)

  -- On a ring that is empty at the start and has room for one message or more, in every interleaving:
  -- steps lead from every state that the processes can reach to the end of both, where the primary
  -- has received the ten replies 0, 10, and so on to 90, in this order, the secondary has seen the
  -- numbers 0 to 9, the ring is empty, and every message has been freed.
  pub one_ring_can_end :
      {r : Ring} {s : State api}
      → items r ≡ []
      → Star (Step api) (launch api r) s
      → (t : State api) × Star (Step api) s t
        × (t.primary ≡ done)
        × (t.secondary ≡ exited)
        × (items t.ring ≡ [])
        × (t.received ≡ tens 10)
        × (t.seen ≡ numbers 10)
        × (t.heap ≡ [])
  one_ring_can_end {r} {s} e ss =
      let (c, h, i) = Star-invariant {P = InPhase} Step-InPhase (launch-InPhase r e) ss in
      let (t, later, f) = Star-descend left progress (suc (left c)) c s (h, i) (omega arith) in
      (
        t,
        later,
        ap (λ v. v.primary) f,
        ap (λ v. v.secondary) f,
        ap (λ v. v.ring) f,
        ap (λ v. v.received) f,
        ap (λ v. v.seen) f,
        ap (λ v. v.heap) f,
      )
