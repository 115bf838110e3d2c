-- ===== src/Ipc/SingleRing/Refine.antt =====
-- The two programs follow the protocol: each step is a step of it, or a spin of one of their loops.
use dpdk_starter.Base.{ℕ, suc, ◌<◌, ◌≡◌, ap, Bool-cases, none, some, ◌⊎◌, inl, inr, [], ltb, arith}
use dpdk_starter.Ring.{RingApi, IsSized}
use dpdk_starter.Ring.Single.{enqueue_room, dequeue_empty, dequeue_cons}
use dpdk_starter.Ipc.Memory.{load}
use dpdk_starter.Ipc.Talk.{tens, numbers}
use dpdk_starter.Ipc.SingleRing.{
  counting, sending, waiting, returning, polling, putting_back, requested, replying, reporting,
  State, next_message, send_exit, send_message, take_response, poll_response, return_message,
  take_request, poll_request, put_back, make_response, send_response, report_response, Step, next,
  send, poll_a, back_a, poll_b, back_b, make, reply, report,
}
use dpdk_starter.Ipc.SingleRing.Protocol.{
  Phase, ready, allocated, asked, borrowed, taken, answering, answered, kept, stopping, over, View,
  view_of, InRange, Next, allocates, asks, borrows, returns, takes, answers, replies, keeps, puts,
  receives, stops, ends, reports_ready, reports_allocated, reports_asked, reports_borrowed,
  reports_answered, reports_stopping,
}

module _ (api : RingApi) (capacity : ℕ) (sized : IsSized api capacity) (room : 0 < capacity) where
  open api use {items}

  abbrev pub ring_view : State api → View
  ring_view s = record {
    ring = items s.ring;
    heap = s.heap;
    primary = s.primary;
    secondary = s.secondary;
    received = s.received;
    seen = s.seen;
  }

  -- A spin, or a step of the protocol.
  abbrev pub Continues : Phase → View → Type 0
  Continues c v = (v ≡ view_of c) ⊎ ((d : Phase) × Next c d × (v ≡ view_of d))

  next-Continues :
      (s : State api) (c : Phase) (i p : ℕ)
      → ring_view s ≡ view_of c
      → InRange c
      → s.primary ≡ counting i
      → Continues c (ring_view (next_message api s i p))
  unfolding next_message send_exit
  next-Continues s (ready j o) i p h r e = elim (Bool-cases (ltb j 10)) [
    | inl less ↦ inr (allocated j p o, allocates j p o (ground arith), ground (arith, h))
    | inr more ↦
        let last : j ≡ 10 = ground arith in
        inr (
          stopping p o,
          stops j p o last,
          ground
              (arith, h, ap tens last, ap numbers last, enqueue_room api capacity sized s.ring p),
        )
  ]
  next-Continues s c i p h r e = absurd (ground arith)

  send-Continues :
      (s : State api) (c : Phase) (i p : ℕ)
      → ring_view s ≡ view_of c
      → s.primary ≡ sending i p
      → Continues c (ring_view (send_message api s i p))
  unfolding send_message
  send-Continues s (allocated j q o) i p h e =
      inr (asked j q o, asks j q o, ground (arith, h, enqueue_room api capacity sized s.ring p))
  send-Continues s c i p h e = absurd (ground arith)

  poll_a-Continues :
      (s : State api) (c : Phase) (i : ℕ)
      → ring_view s ≡ view_of c
      → s.primary ≡ waiting i
      → Continues c (ring_view (poll_response api s i))
  unfolding poll_response take_response
  poll_a-Continues s (asked j p o) i h e = inr (
    borrowed j p o,
    borrows j p o,
    ground (arith, h, dequeue_cons api capacity sized s.ring p []),
  )
  poll_a-Continues s (answered j q o) i h e = inr (
    ready (suc j) o,
    receives j q o,
    ground (arith, h, dequeue_cons api capacity sized s.ring q []),
  )
  poll_a-Continues s (taken j p) i h e =
      inl (ground (arith, h, dequeue_empty api capacity sized s.ring))
  poll_a-Continues s (answering j q) i h e =
      inl (ground (arith, h, dequeue_empty api capacity sized s.ring))
  poll_a-Continues s (kept j q) i h e =
      inl (ground (arith, h, dequeue_empty api capacity sized s.ring))
  poll_a-Continues s c i h e = absurd (ground arith)

  back_a-Continues :
      (s : State api) (c : Phase) (i q : ℕ)
      → ring_view s ≡ view_of c
      → s.primary ≡ returning i q
      → Continues c (ring_view (return_message api s i q))
  unfolding return_message
  back_a-Continues s (borrowed j p o) i q h e =
      inr (asked j p o, returns j p o, ground (arith, h, enqueue_room api capacity sized s.ring q))
  back_a-Continues s c i q h e = absurd (ground arith)

  poll_b-Continues :
      (s : State api) (c : Phase)
      → ring_view s ≡ view_of c
      → s.secondary ≡ polling
      → Continues c (ring_view (poll_request api s))
  unfolding poll_request take_request
  poll_b-Continues s (asked j p none) h e =
      inr (taken j p, takes j p, ground (arith, h, dequeue_cons api capacity sized s.ring p []))
  poll_b-Continues s (answered j q none) h e =
      inr (kept j q, keeps j q, ground (arith, h, dequeue_cons api capacity sized s.ring q []))
  poll_b-Continues s (stopping p none) h e =
      inr (over, ends p, ground (arith, h, dequeue_cons api capacity sized s.ring p []))
  poll_b-Continues s (ready j none) h e =
      inl (ground (arith, h, dequeue_empty api capacity sized s.ring))
  poll_b-Continues s (allocated j p none) h e =
      inl (ground (arith, h, dequeue_empty api capacity sized s.ring))
  poll_b-Continues s (borrowed j p none) h e =
      inl (ground (arith, h, dequeue_empty api capacity sized s.ring))
  poll_b-Continues s c h e = absurd (ground arith)

  back_b-Continues :
      (s : State api) (c : Phase) (p : ℕ)
      → ring_view s ≡ view_of c
      → s.secondary ≡ putting_back p
      → Continues c (ring_view (put_back api s p))
  unfolding put_back
  back_b-Continues s (kept j q) p h e =
      inr (answered j q none, puts j q, ground (arith, h, enqueue_room api capacity sized s.ring p))
  back_b-Continues s c p h e = absurd (ground arith)

  make-Continues :
      (s : State api) (c : Phase) (p q : ℕ)
      → ring_view s ≡ view_of c
      → s.secondary ≡ requested p
      → load q s.heap ≡ none
      → Continues c (ring_view (make_response api s p q))
  unfolding make_response
  make-Continues s (taken j p') p q h e fresh =
      inr (answering j q, answers j p' q, ground (arith, h))
  make-Continues s c p q h e fresh = absurd (ground arith)

  reply-Continues :
      (s : State api) (c : Phase) (q : ℕ)
      → ring_view s ≡ view_of c
      → s.secondary ≡ replying q
      → Continues c (ring_view (send_response api s q))
  unfolding send_response
  reply-Continues s (answering j p) q h e = inr (
    answered j p (some p),
    replies j p,
    ground (arith, h, enqueue_room api capacity sized s.ring q),
  )
  reply-Continues s c q h e = absurd (ground arith)

  report-Continues :
      (s : State api) (c : Phase) (q : ℕ)
      → ring_view s ≡ view_of c
      → s.secondary ≡ reporting q
      → Continues c (ring_view (report_response api s q))
  unfolding report_response
  report-Continues s (ready j (some p)) q h e =
      inr (ready j none, reports_ready j p, ground (arith, h))
  report-Continues s (allocated j p (some p')) q h e =
      inr (allocated j p none, reports_allocated j p p', ground (arith, h))
  report-Continues s (asked j p (some p')) q h e =
      inr (asked j p none, reports_asked j p p', ground (arith, h))
  report-Continues s (borrowed j p (some p')) q h e =
      inr (borrowed j p none, reports_borrowed j p p', ground (arith, h))
  report-Continues s (answered j p (some p')) q h e =
      inr (answered j p none, reports_answered j p p', ground (arith, h))
  report-Continues s (stopping p (some p')) q h e =
      inr (stopping p none, reports_stopping p p', ground (arith, h))
  report-Continues s c q h e = absurd (ground arith)

  -- Each step of the processes on one ring with room for one message or more, in a state that looks
  -- like a phase of the protocol, spins, so that the state looks the same, or leads to a state that
  -- looks like a next phase.
  pub Step-Continues :
      {s t : State api} (c : Phase)
      → ring_view s ≡ view_of c
      → InRange c
      → Step api s t
      → Continues c (ring_view t)
  Step-Continues {s} c h r (next i p e fresh) = next-Continues s c i p h r e
  Step-Continues {s} c h r (send i p e) = send-Continues s c i p h e
  Step-Continues {s} c h r (poll_a i e) = poll_a-Continues s c i h e
  Step-Continues {s} c h r (back_a i q e) = back_a-Continues s c i q h e
  Step-Continues {s} c h r (poll_b e) = poll_b-Continues s c h e
  Step-Continues {s} c h r (back_b p e) = back_b-Continues s c p h e
  Step-Continues {s} c h r (make p q e fresh) = make-Continues s c p q h e fresh
  Step-Continues {s} c h r (reply q e) = reply-Continues s c q h e
  Step-Continues {s} c h r (report q e) = report-Continues s c q h e
