-- ===== src/Ipc/Through/Passing.antt =====
-- The numbers arrive in their order, and each cell is freed once.
use dpdk_starter.Base.{
  ℕ, suc, ◌≤◌, ◌<◌, ◌≡◌, refl, sym, ap, ◌∙◌, Bool-cases, none, some, inl, inr, List, [], ◌∷◌, ◌++◌,
  map, ltb, arith,
}
use mathlib.Core.List.{append_assoc, map-append}
use dpdk_starter.Ring.{RingApi}
use dpdk_starter.Ring.Single.{dequeue, dequeue_either}
use dpdk_starter.Ipc.Memory.{Heap, load, free}
use dpdk_starter.Ipc.Runs.{Star, Star-invariant}
use dpdk_starter.Ipc.Talk.{numbers}
use dpdk_starter.SimpleRing.{Producer, head, enqueuing}
use dpdk_starter.SimpleRing.Cells.{
  addresses, values, Distinct, heap_of-append, Distinct-append, At, At-take,
}
use dpdk_starter.Ipc.Through.{
  Primary, counting, sending, done, State, next_message, send_message, lookup_ring, take_message,
  Step, next, send, find, take, launch,
}

-- The number that the primary is at, and the number of cells that it has allocated.
abbrev pub index : Primary → ℕ
index (counting i) = i
index (sending i p) = i
index done = 10

abbrev pub allocated : Primary → ℕ
allocated (counting i) = i
allocated (sending i p) = suc i
allocated done = 10

-- The cell in its hands.
abbrev pub holding : Primary → Producer
holding (counting i) = head
holding (sending i p) = enqueuing p
holding done = head

abbrev InRange : Primary → Type 0
InRange (counting i) = i ≤ 10
InRange (sending i p) = i < 10
InRange done = 10 ≤ 10

pub InRange-index : (p : Primary) → InRange p → index p ≤ 10
InRange-index (counting i) h = h
InRange-index (sending i p) h = omega arith
InRange-index done h = h

-- Where the numbers of a process are: in order, and their cells allocated.
abbrev pub Placed : Primary → Heap ℕ → List ℕ → List (ℕ × ℕ) → Type 0
Placed p heap vs cells =
    InRange p
    × (vs ++ values cells ≡ numbers (index p))
    × At (holding p) heap cells (index p) (allocated p)

pub Placed-move :
    (p q : Primary) (heap : Heap ℕ) (vs : List ℕ) (cells : List (ℕ × ℕ))
    → p ≡ q
    → Placed p heap vs cells
    → Placed q heap vs cells
Placed-move p q heap vs cells e h = rw (sym e) h

module _ (api : RingApi) where
  open api use {Ring, items, enqueue, items-enqueue_ok, items-enqueue_full}

  -- `vs` have been received, and `cells` are on the ring.
  pub record IsPassing (s : State api) (vs : List ℕ) (cells : List (ℕ × ℕ)) : Type 0 where
    pub ring : items s.ring ≡ addresses cells
    pub distinct : Distinct cells
    pub printed : s.received ≡ map (λ v. some v) vs
    pub placed : Placed s.primary s.heap vs cells

  abbrev pub Passes : State api → Type 0
  Passes s = (vs : List ℕ) × (cells : List (ℕ × ℕ)) × IsPassing s vs cells

  next-Passes :
      (s : State api) (i p : ℕ)
      → s.primary ≡ counting i
      → load p s.heap ≡ none
      → Passes s
      → Passes (next_message api s i p)
  unfolding next_message
  next-Passes s i p e fresh (vs, cells, h) =
      let (range, order, (heap, made)) : Placed (counting i) s.heap vs cells =
        Placed-move s.primary (counting i) s.heap vs cells e h.placed in
      elim (Bool-cases (ltb i 10)) [
        | inl less ↦ (
          vs,
          cells,
          rw less (record {
            ring = h.ring;
            distinct = h.distinct;
            printed = h.printed;
            placed = (
              ground arith,
              order,
              (ap (λ t. (p, i) ∷ t) heap, refl, ap (load p) (sym heap) ∙ fresh),
            );
          }),
        )
        | inr last ↦
            let ten : i ≡ 10 = ground arith in
            (
              vs,
              cells,
              rw last (record {
                ring = h.ring;
                distinct = h.distinct;
                printed = h.printed;
                placed = (omega arith, order ∙ ap numbers ten, (heap, refl));
              }),
            )
      ]

  send-Passes :
      (s : State api) (i p : ℕ)
      → s.primary ≡ sending i p
      → Passes s
      → Passes (send_message api s i p)
  unfolding send_message
  send-Passes s i p e (vs, cells, h) =
      let (range, order, (heap, made, fresh)) : Placed (sending i p) s.heap vs cells =
        Placed-move s.primary (sending i p) s.heap vs cells e h.placed in
      elim (Bool-cases (enqueue s.ring p).0) [
        | inl ok ↦
            let more = cells ++ ((p, i) ∷ []) in
            let order' : vs ++ values more ≡ numbers (suc i) =
              ap (λ r. vs ++ r) (map-append (λ c. c.1) cells ((p, i) ∷ []))
              ∙ sym (append_assoc vs (values cells) (i ∷ []))
              ∙ ap (λ r. r ++ (i ∷ [])) order in
            (
              vs,
              more,
              rw ok (record {
                ring =
                    items-enqueue_ok s.ring p ok
                    ∙ ap (λ r. r ++ (p ∷ [])) h.ring
                    ∙ sym (map-append (λ c. c.0) cells ((p, i) ∷ []));
                distinct = Distinct-append cells p i fresh h.distinct;
                printed = h.printed;
                placed = (omega arith, order', (heap ∙ sym (heap_of-append cells (p, i)), refl));
              }),
            )
        | inr full ↦ (
          vs,
          cells,
          rw full (record {
            ring = items-enqueue_full s.ring p full ∙ h.ring;
            distinct = h.distinct;
            printed = h.printed;
            placed = h.placed;
          }),
        )
      ]

  take_none :
      (s : State api)
      → (dequeue api s.ring).0 ≡ none
      → take_message api s ≡ record s { ring = (dequeue api s.ring).1 }
  unfolding take_message
  take_none s nothing = ground (arith, nothing)

  take_some :
      (s : State api) (p : ℕ)
      → (dequeue api s.ring).0 ≡ some p
      → take_message api s ≡ record s {
        ring = (dequeue api s.ring).1;
        heap = free p s.heap;
        received = s.received ++ (load p s.heap ∷ []);
      }
  unfolding take_message
  take_some s p got = ground (arith, got)

  take_cell-Passes :
      (s : State api) (p : ℕ) (vs : List ℕ) (cells : List (ℕ × ℕ))
      → IsPassing s vs cells
      → (dequeue api s.ring).0 ≡ some p
      → items s.ring ≡ p ∷ items (dequeue api s.ring).1
      → Passes (take_message api s)
  take_cell-Passes s p vs [] h got all = absurd (ground (arith, h.ring))
  take_cell-Passes s p vs ((q, v) ∷ cells) h got all =
      let same : p ≡ q = ground (arith, all, h.ring) in
      let rest : items (dequeue api s.ring).1 ≡ addresses cells = ground (arith, all, h.ring) in
      let (range, order, at) = h.placed in
      let (loaded, freed) =
        At-take (holding s.primary) s.heap q v cells (index s.primary) (allocated s.primary) at
          h.distinct.0 in
      (
        vs ++ (v ∷ []),
        cells,
        rw (take_some s p got, same)
            (record {
              ring = rest;
              distinct = h.distinct.1;
              printed =
                  ap (λ r. r ++ (load q s.heap ∷ [])) h.printed
                  ∙ ap (λ o. map (λ n. some n) vs ++ (o ∷ [])) loaded
                  ∙ sym (map-append (λ n. some n) vs (v ∷ []));
              placed = (range, append_assoc vs (v ∷ []) (values cells) ∙ order, freed);
            }),
      )

  take-Passes : (s : State api) → Passes s → Passes (take_message api s)
  take-Passes s (vs, cells, h) = elim (dequeue_either api s.ring) [
    | inl (nothing, same) ↦ (
      vs,
      cells,
      rw (take_none s nothing) (record {
        ring = same ∙ h.ring;
        distinct = h.distinct;
        printed = h.printed;
        placed = h.placed;
      }),
    )
    | inr (p, got, all) ↦ take_cell-Passes s p vs cells h got all
  ]

  find-Passes : (s : State api) → Passes s → Passes (lookup_ring api s)
  unfolding lookup_ring
  find-Passes s (vs, cells, h) = (
    vs,
    cells,
    record { ring = h.ring; distinct = h.distinct; printed = h.printed; placed = h.placed },
  )

  pub Step-Passes : (s t : State api) → Passes s → Step api s t → Passes t
  Step-Passes s t h (next i p e fresh) = next-Passes s i p e fresh h
  Step-Passes s t h (send i p e) = send-Passes s i p e h
  Step-Passes s t h (find e) = find-Passes s h
  Step-Passes s t h (take e) = take-Passes s h

  pub run-Passes :
      {r : Ring} {s : State api} → items r ≡ [] → Star (Step api) (launch api r) s → Passes s
  run-Passes e ss =
      Star-invariant {P = Passes} Step-Passes
        (
          [],
          [],
          record {
            ring = e;
            distinct = tt;
            printed = refl;
            placed = (omega arith, refl, (refl, refl));
          },
        )
        ss
