-- ===== src/Ipc/SingleRing/Order.antt =====
-- What the two processes on one ring have said at any time.
use dpdk_starter.Base.{
  ℕ, suc, ◌≤◌, ◌<◌, ◌≡◌, ◌≢◌, refl, sym, ap, ◌∙◌, Option, none, some, [], length, arith,
}
use dpdk_starter.Ring.{RingApi, IsSized}
use dpdk_starter.Ipc.Runs.{Star, Star-invariant}
use dpdk_starter.Ipc.Talk.{tens, numbers}
use dpdk_starter.Ipc.SingleRing.{faulted, crashed, State, Step, launch}
use dpdk_starter.Ipc.SingleRing.Protocol.{
  Phase, ready, allocated, asked, borrowed, taken, answering, answered, kept, stopping, over, idle,
  view_of, InRange,
}
use dpdk_starter.Ipc.SingleRing.Ending.{InPhase, Step-InPhase, launch-InPhase}

idle-not_crashed : (o : Option ℕ) → idle o ≢ crashed
idle-not_crashed none e = cc
idle-not_crashed (some q) e = cc

module _ (api : RingApi) (capacity : ℕ) (sized : IsSized api capacity) (room : 0 < capacity) where
  open api use {Ring, items}

  -- `n` replies have been received, and `m` messages seen.
  phase_messages :
      (c : Phase)
      → InRange c
      → (n m : ℕ) × (n ≤ m)
        × (m ≤ suc n)
        × (m ≤ 10)
        × ((view_of c).received ≡ tens n)
        × ((view_of c).seen ≡ numbers m)
        × (length (view_of c).ring ≤ 1)
        × (length (view_of c).heap ≤ 1)
        × ((view_of c).primary ≢ faulted)
        × ((view_of c).secondary ≢ crashed)
  phase_messages (ready i o) r = (
    i,
    i,
    omega arith,
    omega arith,
    r,
    refl,
    refl,
    omega arith,
    omega arith,
    (λ e. cc),
    idle-not_crashed o,
  )
  phase_messages (allocated i p o) r = (
    i,
    i,
    omega arith,
    omega arith,
    omega arith,
    refl,
    refl,
    omega arith,
    omega arith,
    (λ e. cc),
    idle-not_crashed o,
  )
  phase_messages (asked i p o) r = (
    i,
    i,
    omega arith,
    omega arith,
    omega arith,
    refl,
    refl,
    omega arith,
    omega arith,
    (λ e. cc),
    idle-not_crashed o,
  )
  phase_messages (borrowed i p o) r = (
    i,
    i,
    omega arith,
    omega arith,
    omega arith,
    refl,
    refl,
    omega arith,
    omega arith,
    (λ e. cc),
    idle-not_crashed o,
  )
  phase_messages (taken i p) r = (
    i,
    suc i,
    omega arith,
    omega arith,
    r,
    refl,
    refl,
    omega arith,
    omega arith,
    (λ e. cc),
    (λ e. cc),
  )
  phase_messages (answering i q) r = (
    i,
    suc i,
    omega arith,
    omega arith,
    r,
    refl,
    refl,
    omega arith,
    omega arith,
    (λ e. cc),
    (λ e. cc),
  )
  phase_messages (answered i q o) r = (
    i,
    suc i,
    omega arith,
    omega arith,
    r,
    refl,
    refl,
    omega arith,
    omega arith,
    (λ e. cc),
    idle-not_crashed o,
  )
  phase_messages (kept i q) r = (
    i,
    suc i,
    omega arith,
    omega arith,
    r,
    refl,
    refl,
    omega arith,
    omega arith,
    (λ e. cc),
    (λ e. cc),
  )
  phase_messages (stopping p o) r = (
    10,
    10,
    omega arith,
    omega arith,
    omega arith,
    refl,
    refl,
    omega arith,
    omega arith,
    (λ e. cc),
    idle-not_crashed o,
  )
  phase_messages over r = (
    10,
    10,
    omega arith,
    omega arith,
    omega arith,
    refl,
    refl,
    omega arith,
    omega arith,
    (λ e. cc),
    (λ e. cc),
  )

  -- On a ring that is empty at the start and has room for one message or more, in every interleaving:
  -- the primary has received the first `n` of the replies 0, 10, 20 and so on, in this order, and the
  -- secondary has seen the first `m` of the numbers 0, 1, 2 and so on, where `m` is `n` or `n + 1` and
  -- at most 10, whichever process takes a message off the ring, for itself or to put it back; the ring
  -- holds at most one message, at most one is allocated, and no process takes a freed message.
  pub one_ring_in_order :
      {r : Ring} {s : State api}
      → items r ≡ []
      → Star (Step api) (launch api r) s
      → (n m : ℕ) × (n ≤ m)
        × (m ≤ suc n)
        × (m ≤ 10)
        × (s.received ≡ tens n)
        × (s.seen ≡ numbers m)
        × (length (items s.ring) ≤ 1)
        × (length s.heap ≤ 1)
        × (s.primary ≢ faulted)
        × (s.secondary ≢ crashed)
  one_ring_in_order {r} {s} e ss =
      let (c, h, i) =
        Star-invariant {P = InPhase api capacity sized room} (Step-InPhase api capacity sized room)
          (launch-InPhase api capacity sized room r e) ss in
      let (n, m, le, ge, ten, got, saw, one, alloc, ok, ok2) = phase_messages c i in
      (
        n,
        m,
        le,
        ge,
        ten,
        ap (λ v. v.received) h ∙ got,
        ap (λ v. v.seen) h ∙ saw,
        ground (arith, h, one),
        ground (arith, h, alloc),
        (λ f. ok (ap (λ v. v.primary) (sym h) ∙ f)),
        (λ f. ok2 (ap (λ v. v.secondary) (sym h) ∙ f)),
      )
