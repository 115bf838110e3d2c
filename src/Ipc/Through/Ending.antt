-- ===== src/Ipc/Through/Ending.antt =====
-- What has been received at any time, and that all ten numbers can always arrive.
use dpdk_starter.Base.{
  ℕ, suc, ◌+◌, ◌-◌, ◌*◌, ◌≤◌, ◌<◌, ◌≡◌, refl, sym, ap, ◌∙◌, Bool-cases, some, ◌⊎◌, inl, inr, List,
  [], ◌∷◌, ◌++◌, map, length, length-append, ltb, arith,
}
use mathlib.Core.List.{append-nil}
use dpdk_starter.Ring.{RingApi, IsSized}
use dpdk_starter.Ring.Single.{dequeue_cons, enqueue_room}
use dpdk_starter.Ipc.Memory.{load}
use dpdk_starter.Ipc.Runs.{Star, Star-descend}
use dpdk_starter.Ipc.Talk.{numbers}
use dpdk_starter.SimpleRing.Cells.{addresses, values, At-length, length-addresses, length-values}
use dpdk_starter.Ipc.Through.{
  Primary, counting, sending, done, Secondary, looking, polling, State, next_message, send_message,
  lookup_ring, take_message, Step, next, send, find, take, launch,
}
use dpdk_starter.Ipc.Through.Passing.{
  index, allocated, holding, InRange-index, IsPassing, Passes, Placed, Placed-move, Step-Passes,
  run-Passes,
}

abbrev primary_left : Primary → ℕ
primary_left (counting i) = 31 - 3 * i
primary_left (sending i p) = 30 - 3 * i
primary_left done = 0

abbrev secondary_left : Secondary → ℕ
secondary_left looking = 1
secondary_left polling = 0

module _ (api : RingApi) where
  open api use {Ring, items, enqueue}

  -- On an empty ring, in every interleaving: what the secondary has received are numbers that it read
  -- while their cells were allocated, and with those that are on the ring they are the first numbers 0, 1,
  -- and so on, in this order, at most ten; and every cell that is allocated is on the ring, but for one
  -- that the primary may hold.
  pub through_in_order :
      {r : Ring} {s : State api}
      → items r ≡ []
      → Star (Step api) (launch api r) s
      → (vs on_ring : List ℕ) × (n : ℕ) × (n ≤ 10)
        × (s.received ≡ map (λ v. some v) vs)
        × (vs ++ on_ring ≡ numbers n)
        × (length on_ring ≡ length (items s.ring))
        × (length (items s.ring) ≤ length s.heap)
        × (length s.heap ≤ suc (length (items s.ring)))
  through_in_order {r} {s} e ss =
      let (vs, cells, h) = run-Passes api e ss in
      let (range, order, at) = h.placed in
      let (b, fewer, more) =
        At-length (holding s.primary) s.heap cells (index s.primary) (allocated s.primary) at in
      let size : length (items s.ring) ≡ length cells = ap length h.ring ∙ length-addresses cells in
      (
        vs,
        values cells,
        index s.primary,
        InRange-index s.primary range,
        h.printed,
        order,
        length-values cells ∙ sym size,
        omega (arith, size),
        omega (arith, size),
      )

  module _ (capacity : ℕ) (sized : IsSized api capacity) (room : 0 < capacity) where
    abbrev left : State api → ℕ
    left s = primary_left s.primary + secondary_left s.secondary + length (items s.ring)

    abbrev IsOver : State api → Type 0
    IsOver s = (s.primary ≡ done) × (items s.ring ≡ [])

    abbrev Advance : State api → Type 0
    Advance s = (t : State api) × Step api s t × (left t < left s)

    drain :
        (s : State api) (x : ℕ) (xs : List ℕ)
        → s.secondary ≡ polling
        → items s.ring ≡ x ∷ xs
        → Advance s
    unfolding take_message
    drain s x xs f e =
        let (got, rest) = dequeue_cons api capacity sized s.ring x xs e in
        (take_message api s, take f, ground arith)

    message_left :
        (s : State api) (i : ℕ) → s.primary ≡ counting i → s.heap ≡ [] → i ≤ 10 → Advance s
    unfolding next_message
    message_left s i e f le = elim (Bool-cases (ltb i 10)) [
      | inl less ↦ (next_message api s i 0, next i 0 e (ap (λ h. load 0 h) f), ground arith)
      | inr last ↦ (next_message api s i 0, next i 0 e (ap (λ h. load 0 h) f), ground arith)
    ]

    send_left :
        (s : State api) (i p : ℕ) → s.primary ≡ sending i p → items s.ring ≡ [] → i < 10 → Advance s
    unfolding send_message
    send_left s i p e f less =
        let (ok, put) = enqueue_room api capacity sized s.ring p (omega (arith, ap length f)) in
        (
          send_message api s i p,
          send i p e,
          ground (arith, put, length-append (items s.ring) (p ∷ [])),
        )

    empty_ring :
        (p : Primary) (s : State api) (vs : List ℕ)
        → s.primary ≡ p
        → items s.ring ≡ []
        → Placed p s.heap vs []
        → IsOver s ⊎ Advance s
    empty_ring (counting i) s vs e f (range, order, (heap, made)) =
        inr (message_left s i e heap range)
    empty_ring (sending i p) s vs e f (range, order, rest) = inr (send_left s i p e f range)
    empty_ring done s vs e f h = inl (e, f)

    advance :
        (q : Secondary) (cells : List (ℕ × ℕ)) (s : State api) (vs : List ℕ)
        → s.secondary ≡ q
        → IsPassing api s vs cells
        → IsOver s ⊎ Advance s
    unfolding lookup_ring
    advance looking cells s vs f h = inr (lookup_ring api s, find f, ground arith)
    advance polling [] s vs f h = empty_ring s.primary s vs refl h.ring h.placed
    advance polling (c ∷ cells) s vs f h = inr (drain s c.0 (addresses cells) f h.ring)

    progress :
        (c s : State api)
        → (s ≡ c) × Passes api s
        → (IsOver s × Passes api s)
          ⊎ ((t : State api) × Step api s t
              × (d : State api) × ((t ≡ d) × Passes api t)
              × (left d < left c))
    progress c s (e, (vs, cells, h)) = elim (advance s.secondary cells s vs refl h) [
      | inl over ↦ inl (over, (vs, cells, h))
      | inr (t, st, less) ↦
          inr (t, st, t, (refl, Step-Passes api s t (vs, cells, h) st), omega (arith, ap left e))
    ]

    at_end :
        (t : State api) (vs : List ℕ) (cells : List (ℕ × ℕ))
        → IsOver t
        → IsPassing api t vs cells
        → (t.received ≡ map (λ v. some v) (numbers 10)) × (t.heap ≡ [])
    at_end t vs [] (ended, empty) h =
        let (range, order, (heap, made)) : Placed done t.heap vs [] =
          Placed-move t.primary done t.heap vs [] ended h.placed in
        (h.printed ∙ ap (map (λ v. some v)) (sym (append-nil vs) ∙ order), heap)
    at_end t vs (c ∷ cells) (ended, empty) h = absurd (ground (arith, h.ring))

    -- On an empty ring that has room, the processes never get stuck: from every state that they can
    -- reach, in any interleaving, steps lead to the end of the primary, where the secondary has received
    -- 0 to 9, in this order, and every cell is freed.
    pub through_can_end :
        {r : Ring} {s : State api}
        → items r ≡ []
        → Star (Step api) (launch api r) s
        → (t : State api) × Star (Step api) s t
          × (t.primary ≡ done)
          × (t.received ≡ map (λ v. some v) (numbers 10))
          × (t.heap ≡ [])
    through_can_end {r} {s} e ss =
        let h = run-Passes api e ss in
        let (t, later, (over, (vs, cells, i))) =
          Star-descend {Q = λ t. IsOver t × Passes api t} left progress (suc (left s)) s s (refl, h)
            (omega arith) in
        let (all, freed) = at_end t vs cells over i in (t, later, over.0, all, freed)
