-- ===== src/SimpleRing/Producing.antt =====
-- What the loop of the producer and the signal keep of the numbers on the ring and of those printed.
use dpdk_starter.Base.{
  ℕ, suc, ◌≤◌, ◌≡◌, refl, sym, ap, ◌∙◌, Bool-cases, Option, none, some, inl, inr, List, [], ◌∷◌,
  ◌++◌, map, u64, arith,
}
use mathlib.Core.List.{append_assoc, map-append}
use dpdk_starter.Rising.{Rises, Rises-append, Rises-widen, Rises-eq}
use dpdk_starter.Ring.{RingApi}
use dpdk_starter.Ipc.Memory.{load, free}
use dpdk_starter.SimpleRing.Cells.{
  addresses, values, heap_of, Distinct, heap_of-append, free-fresh, Distinct-append, At, At-move,
}
use dpdk_starter.SimpleRing.{
  head, enqueuing, reporting, State, handle_signal, produce, enqueue_data, report_data,
}

abbrev pub shown : List ℕ → List (Option ℕ)
shown = map (λ v. some v)

module _ (api : RingApi) where
  open api use {Ring, items, enqueue, items-enqueue_ok, items-enqueue_full}

  -- `vs` have been printed, `cells` are on the ring, and `bound` is the next number.
  pub record IsCounting (s : State api) (vs : List ℕ) (cells : List (ℕ × ℕ)) (bound : ℕ)
      : Type 0 where
    pub ring : items s.ring ≡ addresses cells
    pub distinct : Distinct cells
    pub printed : s.printed ≡ shown vs
    pub rises : Rises 0 (vs ++ values cells) bound
    pub counter : s.counter ≡ u64 s.made
    pub place : At s.producer s.heap cells bound s.made

  abbrev pub Counts : State api → Type 0
  Counts s =
      s.made ≤ 18446744073709551616
      → (vs : List ℕ) × (cells : List (ℕ × ℕ)) × (bound : ℕ) × IsCounting s vs cells bound

  pub signal-Counts : (s : State api) → Counts s → Counts (handle_signal api s)
  unfolding handle_signal
  signal-Counts s h le =
      let (vs, cells, bound, c) = h le in
      (
        vs,
        cells,
        bound,
        record {
          ring = c.ring;
          distinct = c.distinct;
          printed = c.printed;
          rises = c.rises;
          counter = c.counter;
          place = c.place;
        },
      )

  pub make-Counts :
      (s : State api) (p : ℕ)
      → s.producer ≡ head
      → load p s.heap ≡ none
      → Counts s
      → Counts (produce api s p)
  unfolding produce
  make-Counts s p e fresh h le =
      let (vs, cells, bound, c) = h (omega arith) in
      let (heap, made) : At head s.heap cells bound s.made =
        At-move _ _ s.heap cells bound s.made e c.place in
      (
        vs,
        cells,
        bound,
        record {
          ring = c.ring;
          distinct = c.distinct;
          printed = c.printed;
          rises = c.rises;
          counter = ground (arith, c.counter);
          place =
              (ground (arith, heap, made, c.counter), ap suc made, ap (load p) (sym heap) ∙ fresh);
        },
      )

  pub put-Counts :
      (s : State api) (p : ℕ) → s.producer ≡ enqueuing p → Counts s → Counts (enqueue_data api s p)
  unfolding enqueue_data
  put-Counts s p e h le =
      let (vs, cells, bound, c) = h (ground arith) in
      let (heap, made, fresh) : At (enqueuing p) s.heap cells bound s.made =
        At-move _ _ s.heap cells bound s.made e c.place in
      elim (Bool-cases (enqueue s.ring p).0) [
        | inl ok ↦
            let more = cells ++ ((p, bound) ∷ []) in
            let moved : (vs ++ values cells) ++ (bound ∷ []) ≡ vs ++ values more =
              append_assoc vs (values cells) (bound ∷ [])
              ∙ ap (λ r. vs ++ r) (sym (map-append (λ c. c.1) cells ((p, bound) ∷ []))) in
            (
              vs,
              more,
              suc bound,
              rw ok (record {
                ring =
                    items-enqueue_ok s.ring p ok
                    ∙ ap (λ r. r ++ (p ∷ [])) c.ring
                    ∙ sym (map-append (λ c. c.0) cells ((p, bound) ∷ []));
                distinct = Distinct-append cells p bound fresh c.distinct;
                printed = c.printed;
                rises = Rises-eq 0 moved refl (Rises-append 0 (vs ++ values cells) bound c.rises);
                counter = c.counter;
                place = (heap ∙ sym (heap_of-append cells (p, bound)), made);
              }),
            )
        | inr full ↦ (
          vs,
          cells,
          suc bound,
          rw full (record {
            ring = items-enqueue_full s.ring p full ∙ c.ring;
            distinct = c.distinct;
            printed = c.printed;
            rises = Rises-widen 0 (vs ++ values cells) bound c.rises;
            counter = c.counter;
            place = (ap (free p) heap ∙ ground (arith, free-fresh (heap_of cells) p fresh), made);
          }),
        )
      ]

  pub report-Counts :
      (s : State api) (p : ℕ) → s.producer ≡ reporting p → Counts s → Counts (report_data api s p)
  unfolding report_data
  report-Counts s p e h le =
      let (vs, cells, bound, c) = h le in
      let at : At (reporting p) s.heap cells bound s.made =
        At-move _ _ s.heap cells bound s.made e c.place in
      (
        vs,
        cells,
        bound,
        record {
          ring = c.ring;
          distinct = c.distinct;
          printed = c.printed;
          rises = c.rises;
          counter = c.counter;
          place = at;
        },
      )
