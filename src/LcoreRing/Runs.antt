-- ===== src/LcoreRing/Runs.antt =====
-- What the receiver prints, and that the ring can be freed before it has received.
use dpdk_starter.Base.{
  ℕ, ◌≡◌, ◌≢◌, refl, sym, ap, ◌∙◌, true, Option, some, ◌⊎◌, inl, inr, List, [], ◌∷◌, ◌++◌, arith,
  Bool-cases, length,
}
use dpdk_starter.Ring.{RingApi}
use dpdk_starter.Ring.Single.{dequeue, dequeue_either}
use dpdk_starter.Ipc.Memory.{Heap, load}
use dpdk_starter.Ipc.Runs.{Star, here, then_step, Star-invariant}
use dpdk_starter.LcoreRing.{
  Sender, allocating, enqueuing, sent, Receiver, polling, printed, faulted, freeing, ended, State,
  allocate, send, receive, wait_main, wait_sender, free_ring, Step, allocates, sends, receives,
  waits_main, waits_sender, frees, launch,
}

-- The cell and the ring, by where the sender stands: `taken` once the receiver has printed.
abbrev Holds : Sender → Receiver → Heap ℕ → List ℕ → Type 0
Holds allocating r heap on_ring = (heap ≡ []) × (on_ring ≡ []) × ((o : Option ℕ) → r ≢ printed o)
Holds (enqueuing p) r heap on_ring =
    (heap ≡ (p, 20) ∷ []) × (on_ring ≡ []) × ((o : Option ℕ) → r ≢ printed o)
Holds sent r heap on_ring =
    (p : ℕ) × (heap ≡ (p, 20) ∷ [])
    × ((on_ring ≡ []) ⊎ (on_ring ≡ p ∷ []))
    × ((o : Option ℕ) → r ≡ printed o → o ≡ some 20)

Holds-move :
    (a b : Sender) (r : Receiver) (heap : Heap ℕ) (on_ring : List ℕ)
    → a ≡ b
    → Holds a r heap on_ring
    → Holds b r heap on_ring
Holds-move a b r heap on_ring e h = rw (sym e) h

module _ (api : RingApi) where
  open api use {Ring, items, enqueue, items-enqueue_ok, items-enqueue_full}

  abbrev Keeps : State api → Type 0
  Keeps s = Holds s.sender s.receiver s.heap (items s.ring)

  allocate-Keeps :
      (s : State api) (p : ℕ) → s.sender ≡ allocating → Keeps s → Keeps (allocate api s p)
  unfolding allocate
  allocate-Keeps s p e h =
      let (heap, empty, unread) : Holds allocating s.receiver s.heap (items s.ring) =
        Holds-move s.sender allocating s.receiver s.heap (items s.ring) e h in
      (ap (λ t. (p, 20) ∷ t) heap, empty, unread)

  send-Keeps : (s : State api) (p : ℕ) → s.sender ≡ enqueuing p → Keeps s → Keeps (send api s p)
  unfolding send
  send-Keeps s p e h =
      let (heap, empty, unread) : Holds (enqueuing p) s.receiver s.heap (items s.ring) =
        Holds-move s.sender (enqueuing p) s.receiver s.heap (items s.ring) e h in
      elim (Bool-cases (enqueue s.ring p).0) [
        | inl ok ↦ (
          p,
          heap,
          inr (items-enqueue_ok s.ring p ok ∙ ap (λ r. r ++ (p ∷ [])) empty),
          λ o read. absurd (unread o read),
        )
        | inr full ↦ (
          p,
          heap,
          inl (items-enqueue_full s.ring p full ∙ empty),
          λ o read. absurd (unread o read),
        )
      ]

  -- What the ring has before and after a dequeue.
  receive_at :
      (a : Sender) (s : State api)
      → s.receiver ≡ polling
      → Holds a s.receiver s.heap (items s.ring)
      → Holds a (receive api s).receiver (receive api s).heap (items (receive api s).ring)
  unfolding receive
  receive_at allocating s e (heap, empty, unread) = elim (Bool-cases s.ring_freed) [
    | inl gone ↦ rw gone (heap, empty, λ o r. cc)
    | inr there ↦ elim (dequeue_either api s.ring) [
      | inl (nothing, same) ↦ rw (there, nothing) ((heap, same ∙ empty, unread))
      | inr (p, got, all) ↦ absurd (ground (arith, all, empty))
    ]
  ]
  receive_at (enqueuing q) s e (heap, empty, unread) = elim (Bool-cases s.ring_freed) [
    | inl gone ↦ rw gone (heap, empty, λ o r. cc)
    | inr there ↦ elim (dequeue_either api s.ring) [
      | inl (nothing, same) ↦ rw (there, nothing) ((heap, same ∙ empty, unread))
      | inr (p, got, all) ↦ absurd (ground (arith, all, empty))
    ]
  ]
  receive_at sent s e (q, heap, on_ring, read) = elim (Bool-cases s.ring_freed) [
    | inl gone ↦ rw gone (q, heap, on_ring, λ o r. cc)
    | inr there ↦ elim (dequeue_either api s.ring) [
      | inl (nothing, same) ↦ rw (there, nothing) ((q, heap, ground (arith, same, on_ring), read))
      | inr (p, got, all) ↦
          let one : items s.ring ≡ q ∷ [] = ground (arith, on_ring, all) in
          let rest : items (dequeue api s.ring).1 ≡ [] = ground (arith, one, all) in
          let same : p ≡ q = ground (arith, one, all) in
          rw (there, got) ((q, heap, inl rest, λ o r. ground (arith, r, same, ap (load p) heap)))
    ]
  ]

  receive-sender : (s : State api) → (receive api s).sender ≡ s.sender
  unfolding receive
  receive-sender s = ground (arith, dequeue_either api s.ring)

  receive-Keeps : (s : State api) → s.receiver ≡ polling → Keeps s → Keeps (receive api s)
  receive-Keeps s e h =
      let t = receive api s in
      Holds-move s.sender t.sender t.receiver t.heap (items t.ring) (sym (receive-sender s))
        (receive_at s.sender s e h)

  -- The receiver faults only on a ring that the main lcore has freed, behind the sender's end.
  record IsOrdered (s : State api) : Type 0 where
    freed : s.ring_freed ≡ true → s.main ≡ ended
    done : s.main ≡ freeing → s.sender ≡ sent
    over : s.main ≡ ended → s.sender ≡ sent
    fault : s.receiver ≡ faulted → s.ring_freed ≡ true

  Step-IsOrdered : (s t : State api) → IsOrdered s → Step api s t → IsOrdered t
  unfolding allocate send receive wait_main wait_sender free_ring
  Step-IsOrdered s t h (allocates p e fresh) = ground arith
  Step-IsOrdered s t h (sends p e) = ground arith
  Step-IsOrdered s t h (receives e) = ground (arith, dequeue_either api s.ring)
  Step-IsOrdered s t h (waits_main e) = ground arith
  Step-IsOrdered s t h (waits_sender e f) = ground arith
  Step-IsOrdered s t h (frees e) = ground arith

  Step-Keeps : (s t : State api) → Keeps s → Step api s t → Keeps t
  unfolding wait_main wait_sender free_ring
  Step-Keeps s t h (allocates p e fresh) = allocate-Keeps s p e h
  Step-Keeps s t h (sends p e) = send-Keeps s p e h
  Step-Keeps s t h (receives e) = receive-Keeps s e h
  Step-Keeps s t h (waits_main e) = h
  Step-Keeps s t h (waits_sender e f) = h
  Step-Keeps s t h (frees e) = h

  sent_heap :
      (a : Sender) (r : Receiver) (heap : Heap ℕ) (on_ring : List ℕ) (o : Option ℕ)
      → Holds a r heap on_ring
      → r ≡ printed o
      → (o ≡ some 20) × (a ≡ sent) × (length heap ≡ 1)
  sent_heap allocating r heap on_ring o (e, f, unread) h = absurd (unread o h)
  sent_heap (enqueuing p) r heap on_ring o (e, f, unread) h = absurd (unread o h)
  sent_heap sent r heap on_ring o (p, e, f, read) h = (read o h, refl, ap length e)

  -- On an empty ring, in every interleaving: if the receiver has printed, it has printed 20, from the cell
  -- that the sender has allocated, which is never freed; and if it has called a ring that is freed, the
  -- sender has returned and the main lcore is at its end.
  pub receive_safe :
      {r : Ring} {s : State api}
      → items r ≡ []
      → Star (Step api) (launch api r) s
      → ((o : Option ℕ)
          → s.receiver ≡ printed o
          → (o ≡ some 20) × (s.sender ≡ sent) × (length s.heap ≡ 1))
        × (s.receiver ≡ faulted → (s.main ≡ ended) × (s.sender ≡ sent))
  receive_safe {r} {s} e ss =
      let start : Keeps (launch api r) = (refl, e, λ o f. cc) in
      let h = Star-invariant {P = Keeps} Step-Keeps start ss in
      let q = Star-invariant {P = IsOrdered} Step-IsOrdered (ground arith) ss in
      (
        λ o f. sent_heap s.sender s.receiver s.heap (items s.ring) o h f,
        λ f. let last = q.freed (q.fault f) in (last, q.over last),
      )

  -- The main lcore does not wait for the receiver: on any ring, the sender's steps and the main lcore's can
  -- come first, and the receiver then calls the ring that is freed.
  pub ring_freed_early :
      (r : Ring)
      → (t : State api) × Star (Step api) (launch api r) t
        × (t.receiver ≡ faulted)
        × (t.ring_freed ≡ true)
  unfolding allocate send receive wait_main wait_sender free_ring
  ring_freed_early r =
      let start = launch api r in
      let s₁ = allocate api start 0 in
      let s₂ = send api s₁ 0 in
      let s₃ = wait_main api s₂ in
      let s₄ = wait_sender api s₃ in
      let s₅ = free_ring api s₄ in
      (
        receive api s₅,
        then_step
            (then_step
              (then_step
                (then_step (then_step (then_step here (allocates 0 refl refl)) (sends 0 refl))
                  (waits_main refl))
                (waits_sender refl refl))
              (frees refl))
            (receives refl),
        refl,
        refl,
      )
