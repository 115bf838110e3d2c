-- ===== src/Ipc/FullDuplex/Refine.antt =====
-- The two programs follow the protocol: each step is a step of it, or a spin of one of their loops.
use dpdk_starter.Base.{ℕ, suc, ◌<◌, ◌≡◌, ap, Bool-cases, ◌⊎◌, inl, inr, [], ltb, arith}
use dpdk_starter.Ring.{RingApi, IsSized}
use dpdk_starter.Ring.Single.{enqueue_room, dequeue_empty, dequeue_cons}
use dpdk_starter.Ipc.Talk.{tens, numbers}
use dpdk_starter.Ipc.FullDuplex.{
  counting, sending, waiting, polling, computed, replying, State, next_message, stop_secondary,
  send_message, receive_reply, take_message, make_reply, send_reply, Step, next, send, receive,
  take, make, reply,
}
use dpdk_starter.Ipc.FullDuplex.Protocol.{
  Phase, ready, allocated, asked, taken, answering, answered, stopping, over, View, view_of,
  InRange, Next, allocates, asks, takes, answers, replies, receives, stops, ends,
}

module _ (api : RingApi) (capacity : ℕ) (sized : IsSized api capacity) (room : 0 < capacity) where
  open api use {items}

  abbrev pub view : State api → View
  view s = record {
    ring = items s.ring;
    ring2 = items s.ring2;
    heap = s.heap;
    primary = s.primary;
    secondary = s.secondary;
    received = s.received;
    seen = s.seen;
  }

  -- A spin, or a step of the protocol.
  abbrev pub Follows : Phase → View → Type 0
  Follows c v = (v ≡ view_of c) ⊎ ((d : Phase) × Next c d × (v ≡ view_of d))

  next-Follows :
      (s : State api) (c : Phase) (i p : ℕ)
      → view s ≡ view_of c
      → InRange c
      → s.primary ≡ counting i
      → Follows c (view (next_message api s i p))
  unfolding next_message stop_secondary
  next-Follows s (ready j) i p h r e = elim (Bool-cases (ltb j 10)) [
    | inl less ↦ inr (
      allocated j p,
      allocates j p (ground arith),
      ground (arith, h, enqueue_room api capacity sized s.ring p),
    )
    | inr more ↦
        let last : j ≡ 10 = ground arith in
        inr (
          stopping p,
          stops j p last,
          ground
              (arith, h, ap tens last, ap numbers last, enqueue_room api capacity sized s.ring p),
        )
  ]
  next-Follows s c i p h r e = absurd (ground arith)

  send-Follows :
      (s : State api) (c : Phase) (i p : ℕ)
      → view s ≡ view_of c
      → s.primary ≡ sending i p
      → Follows c (view (send_message api s i p))
  unfolding send_message
  send-Follows s (allocated j q) i p h e =
      inr (asked j q, asks j q, ground (arith, h, enqueue_room api capacity sized s.ring p))
  send-Follows s c i p h e = absurd (ground arith)

  receive-Follows :
      (s : State api) (c : Phase) (i : ℕ)
      → view s ≡ view_of c
      → s.primary ≡ waiting i
      → Follows c (view (receive_reply api s i))
  unfolding receive_reply
  receive-Follows s (asked j p) i h e =
      inl (ground (arith, h, dequeue_empty api capacity sized s.ring2))
  receive-Follows s (taken j) i h e =
      inl (ground (arith, h, dequeue_empty api capacity sized s.ring2))
  receive-Follows s (answering j q) i h e =
      inl (ground (arith, h, dequeue_empty api capacity sized s.ring2))
  receive-Follows s (answered j q) i h e =
      inr (
        ready (suc j),
        receives j q,
        ground (arith, h, dequeue_cons api capacity sized s.ring2 q []),
      )
  receive-Follows s c i h e = absurd (ground arith)

  take-Follows :
      (s : State api) (c : Phase)
      → view s ≡ view_of c
      → InRange c
      → s.secondary ≡ polling
      → Follows c (view (take_message api s))
  unfolding take_message
  take-Follows s (asked j p) h r e =
      inr (taken j, takes j p, ground (arith, h, r, dequeue_cons api capacity sized s.ring p []))
  take-Follows s (stopping p) h r e =
      inr (over, ends p, ground (arith, h, dequeue_cons api capacity sized s.ring p []))
  take-Follows s (ready j) h r e = inl (ground (arith, h, dequeue_empty api capacity sized s.ring))
  take-Follows s (allocated j p) h r e =
      inl (ground (arith, h, dequeue_empty api capacity sized s.ring))
  take-Follows s (answered j q) h r e =
      inl (ground (arith, h, dequeue_empty api capacity sized s.ring))
  take-Follows s c h r e = absurd (ground arith)

  make-Follows :
      (s : State api) (c : Phase) (v q : ℕ)
      → view s ≡ view_of c
      → s.secondary ≡ computed v
      → Follows c (view (make_reply api s v q))
  unfolding make_reply
  make-Follows s (taken j) v q h e = inr (answering j q, answers j q, ground (arith, h))
  make-Follows s c v q h e = absurd (ground arith)

  reply-Follows :
      (s : State api) (c : Phase) (q : ℕ)
      → view s ≡ view_of c
      → s.secondary ≡ replying q
      → Follows c (view (send_reply api s q))
  unfolding send_reply
  reply-Follows s (answering j p) q h e =
      inr (answered j p, replies j p, ground (arith, h, enqueue_room api capacity sized s.ring2 q))
  reply-Follows s c q h e = absurd (ground arith)

  -- Each step of the processes on two rings with room for one message or more, in a state that looks
  -- like a phase of the protocol, spins, so that the state looks the same, or leads to a state that
  -- looks like the next phase.
  pub Step-Follows :
      {s t : State api} (c : Phase)
      → view s ≡ view_of c
      → InRange c
      → Step api s t
      → Follows c (view t)
  Step-Follows {s} c h r (next i p e fresh) = next-Follows s c i p h r e
  Step-Follows {s} c h r (send i p e) = send-Follows s c i p h e
  Step-Follows {s} c h r (receive i e) = receive-Follows s c i h e
  Step-Follows {s} c h r (take e) = take-Follows s c h r e
  Step-Follows {s} c h r (make v q e fresh) = make-Follows s c v q h e
  Step-Follows {s} c h r (reply q e) = reply-Follows s c q h e
