-- ===== src/SimpleRing/Counting.antt =====
-- The numbers that the consumer prints.
use dpdk_starter.Base.{
  ℕ, suc, ◌≤◌, ◌≡◌, refl, sym, ap, ◌∙◌, none, some, inl, inr, List, [], ◌∷◌, ◌++◌, map, length,
  count, ◌⊎◌, arith,
}
use mathlib.Core.List.{append_assoc, map-append}
use dpdk_starter.Rising.{Rises, Rises-eq, Rises-front, Rises-weaken}
use dpdk_starter.Ring.{RingApi}
use dpdk_starter.Ring.Single.{dequeue, dequeue_either}
use dpdk_starter.Ipc.Memory.{load, free}
use dpdk_starter.Ipc.Runs.{Star, Star-invariant}
use dpdk_starter.SimpleRing.Cells.{addresses, values, length-addresses, At-take, At-length, At-load}
use dpdk_starter.SimpleRing.{
  enqueuing, State, consume, Step, signal, make, put, report, take, launch,
}
use dpdk_starter.SimpleRing.Producing.{
  shown, IsCounting, Counts, signal-Counts, make-Counts, put-Counts, report-Counts,
}

module _ (api : RingApi) where
  open api use {Ring, items, enqueue, items-enqueue_ok, items-enqueue_full}

  consume-none :
      (s : State api)
      → (dequeue api s.ring).0 ≡ none
      → consume api s ≡ record s { ring = (dequeue api s.ring).1 }
  unfolding consume
  consume-none s nothing = ground (arith, nothing)

  consume-some :
      (s : State api) (p : ℕ)
      → (dequeue api s.ring).0 ≡ some p
      → consume api s ≡ record s {
        ring = (dequeue api s.ring).1;
        heap = free p s.heap;
        printed = s.printed ++ (load p s.heap ∷ []);
      }
  unfolding consume
  consume-some s p got = ground (arith, got)

  consume-made : (s : State api) → (consume api s).made ≡ s.made
  consume-made s = elim (dequeue_either api s.ring) [
    | inl (nothing, same) ↦ ap (λ t. t.made) (consume-none s nothing)
    | inr (p, got, all) ↦ ap (λ t. t.made) (consume-some s p got)
  ]

  take_cell-Counts :
      (s : State api) (p : ℕ) (vs : List ℕ) (cells : List (ℕ × ℕ)) (bound : ℕ)
      → IsCounting api s vs cells bound
      → (dequeue api s.ring).0 ≡ some p
      → items s.ring ≡ p ∷ items (dequeue api s.ring).1
      → (vs' : List ℕ) × (cells' : List (ℕ × ℕ)) × (bound' : ℕ) × IsCounting api
          (consume api s)
          vs'
          cells'
          bound'
  take_cell-Counts s p vs [] bound c got all = absurd (ground (arith, c.ring))
  take_cell-Counts s p vs ((q, v) ∷ cells) bound c got all =
      let same : p ≡ q = ground (arith, all, c.ring) in
      let rest : items (dequeue api s.ring).1 ≡ addresses cells = ground (arith, all, c.ring) in
      let (loaded, freed) = At-take s.producer s.heap q v cells bound s.made c.place c.distinct.0 in
      let moved : vs ++ (v ∷ values cells) ≡ (vs ++ (v ∷ [])) ++ values cells =
        sym (append_assoc vs (v ∷ []) (values cells)) in
      (
        vs ++ (v ∷ []),
        cells,
        bound,
        rw (consume-some s p got, same)
            (record {
              ring = rest;
              distinct = c.distinct.1;
              printed =
                  ap (λ r. r ++ (load q s.heap ∷ [])) c.printed
                  ∙ ap (λ o. shown vs ++ (o ∷ [])) loaded
                  ∙ sym (map-append (λ n. some n) vs (v ∷ []));
              rises = Rises-eq 0 moved refl c.rises;
              counter = c.counter;
              place = freed;
            }),
      )

  take-Counts : (s : State api) → Counts api s → Counts api (consume api s)
  take-Counts s h le =
      let (vs, cells, bound, c) = h (omega (arith, consume-made s)) in
      elim (dequeue_either api s.ring) [
        | inl (nothing, same) ↦ (
          vs,
          cells,
          bound,
          rw (consume-none s nothing) (record {
            ring = same ∙ c.ring;
            distinct = c.distinct;
            printed = c.printed;
            rises = c.rises;
            counter = c.counter;
            place = c.place;
          }),
        )
        | inr (p, got, all) ↦ take_cell-Counts s p vs cells bound c got all
      ]

  Step-Counts : (s t : State api) → Counts api s → Step api s t → Counts api t
  Step-Counts s t h signal = signal-Counts api s h
  Step-Counts s t h (make p e on fresh) = make-Counts api s p e fresh h
  Step-Counts s t h (put p e) = put-Counts api s p e h
  Step-Counts s t h (report p e) = report-Counts api s p e h
  Step-Counts s t h (take on) = take-Counts s h

  launch-Counts : (r : Ring) → items r ≡ [] → Counts api (launch api r)
  launch-Counts r e le = (
    [],
    [],
    0,
    record {
      ring = e;
      distinct = tt;
      printed = refl;
      rises = omega arith;
      counter = refl;
      place = (refl, refl);
    },
  )

  -- From an empty ring, in every interleaving, while the producer has made at most 2 ^ 64 numbers: the
  -- consumer reads no cell that has been freed, and the numbers that it prints rise and are below the
  -- number of the producer's rounds, so none is printed twice; every cell that is allocated is on the
  -- ring, or is the one that the producer is about to put there; and there is at most one such cell
  -- besides those on the ring.
  pub count_in_order :
      {r : Ring} {s : State api}
      → items r ≡ []
      → Star (Step api) (launch api r) s
      → s.made ≤ 18446744073709551616
      → (vs : List ℕ) × (s.printed ≡ map (λ v. some v) vs)
        × Rises 0 vs s.made
        × (length (items s.ring) ≤ length s.heap)
        × (length s.heap ≤ suc (length (items s.ring)))
        × ((p v : ℕ)
            → load p s.heap ≡ some v
            → (1 ≤ count p (items s.ring)) ⊎ (s.producer ≡ enqueuing p))
  count_in_order {r} {s} e steps le =
      let (vs, cells, bound, c) =
        Star-invariant {P = Counts api} Step-Counts (launch-Counts r e) steps le in
      let (b, fewer, more) = At-length s.producer s.heap cells bound s.made c.place in
      let size : length (items s.ring) ≡ length cells = ap length c.ring ∙ length-addresses cells in
      (
        vs,
        c.printed,
        Rises-weaken 0 vs bound s.made b (Rises-front 0 vs (values cells) bound c.rises),
        omega (arith, size),
        omega (arith, size),
        λ p v got. rw c.ring (At-load s.producer s.heap cells bound s.made p v c.place got),
      )
