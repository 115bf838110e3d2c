-- ===== src/Reorder/Order.antt =====
-- No packet is lost in the reorder buffer, and they leave it in the order of their arrival.
use dpdk_starter.Base.{
  ℕ, suc, ◌+◌, ◌<◌, ◌≡◌, refl, sym, ap, ◌∙◌, Bool-cases, inl, inr, List, [], ◌∷◌, ◌++◌, length,
  count, count-append, length-append, All, u32, arith,
}
use mathlib.Core.List.{append_assoc, map-append}
use dpdk_starter.Rising.{Rises, Rises-append, Rises-widen, Rises-le, Rises-eq}
use dpdk_starter.Reorder.{
  ReorderApi, numbers, packets, State, launch, insert_packet, insert_burst, drain_ordered, round,
  run,
}

-- The numbers of the last part are below the bound.
Rises-below :
    (lo : ℕ) (xs : List ℕ) (es : List (ℕ × ℕ)) (hi : ℕ)
    → Rises lo (xs ++ numbers es) hi
    → All (λ e. e.0 < hi) es
Rises-below lo [] [] hi h = tt
Rises-below lo [] (e ∷ es) hi (le, h) =
    (Rises-le (suc e.0) (numbers es) hi h, Rises-below (suc e.0) [] es hi h)
Rises-below lo (x ∷ xs) es hi (le, h) = Rises-below (suc x) xs es hi h

-- The packets of all bursts.
abbrev pub arrivals : List (List ℕ) → List ℕ
arrivals [] = []
arrivals (rx ∷ bursts) = rx ++ arrivals bursts

module _ (api : ReorderApi) where
  open api use {Buffer, held, insert, drain, held-insert_last, held-insert_refused, held-drain}

  -- The numbers of the packets that have left, then those in the buffer.
  abbrev pub all_numbers : State api → List ℕ
  all_numbers s = s.printed ++ numbers (held s.rbuf)

  -- How often the packet is freed or held.
  abbrev pub accounted : State api → ℕ → ℕ
  accounted s m = count m s.refused + count m s.freed + count m (packets (held s.rbuf))

  -- What holds between two packets, with the numbers not yet wrapped.
  abbrev Keeps : State api → State api → List ℕ → ℕ → Type 0
  Keeps s t ms m =
      Rises 0 (all_numbers t) t.seq_counter
      × (t.seq_counter ≡ s.seq_counter + length ms)
      × (accounted t m ≡ accounted s m + count m ms)

  insert_packet-Keeps :
      (s : State api) (m n : ℕ)
      → Rises 0 (all_numbers s) s.seq_counter
      → suc s.seq_counter < 4294967296
      → Keeps s (insert_packet api s m) (m ∷ []) n
  unfolding insert_packet
  insert_packet-Keeps s m n h less = elim (Bool-cases (insert s.rbuf s.seq_counter m).0) [
    | inl ok ↦
        let next : u32 (s.seq_counter + 1) ≡ suc s.seq_counter = ground arith in
        let last =
          held-insert_last s.rbuf s.seq_counter m
            (Rises-below 0 s.printed (held s.rbuf) s.seq_counter h) ok in
        let moved : all_numbers s ++ (s.seq_counter ∷ []) ≡ all_numbers (insert_packet api s m) =
          append_assoc s.printed (numbers (held s.rbuf)) (s.seq_counter ∷ [])
          ∙ ap (λ xs. s.printed ++ xs)
              (sym (
                ap numbers last ∙ map-append (λ e. e.0) (held s.rbuf) ((s.seq_counter, m) ∷ []))) in
        let stored =
          ap packets last ∙ map-append (λ e. e.1) (held s.rbuf) ((s.seq_counter, m) ∷ []) in
        (
          Rises-eq 0 moved (sym next) (Rises-append 0 (all_numbers s) s.seq_counter h),
          ground arith,
          ground (arith, ok, ap (count n) stored, count-append n (packets (held s.rbuf)) (m ∷ [])),
        )
    | inr full ↦
        let next : u32 (s.seq_counter + 1) ≡ suc s.seq_counter = ground arith in
        let same = held-insert_refused s.rbuf s.seq_counter m full in
        (
          Rises-eq 0 (ap (λ es. s.printed ++ numbers es) (sym same)) (sym next)
              (Rises-widen 0 (all_numbers s) s.seq_counter h),
          ground arith,
          ground (
            arith,
            full,
            ap (λ es. count n (packets es)) same,
            count-append n s.refused (m ∷ []),
          ),
        )
  ]

  insert_burst-Keeps :
      (s : State api) (ms : List ℕ) (n : ℕ)
      → Rises 0 (all_numbers s) s.seq_counter
      → s.seq_counter + length ms < 4294967296
      → Keeps s (insert_burst api s ms) ms n
  unfolding insert_burst
  insert_burst-Keeps s [] n h less = (h, omega arith, omega arith)
  insert_burst-Keeps s (m ∷ ms) n h less =
      let (r, c, a) = insert_packet-Keeps s m n h (omega arith) in
      let (r', c', a') = insert_burst-Keeps (insert_packet api s m) ms n r (omega (arith, c)) in
      (r', omega (arith, c, c'), ground (arith, a, a', count-append n (m ∷ []) ms))

  -- `k` packets are drained at most.
  module _ (k : ℕ) where
    drain_ordered-Keeps :
        (s : State api) (n : ℕ)
        → Rises 0 (all_numbers s) s.seq_counter
        → Keeps s (drain_ordered api k s) [] n
    unfolding drain_ordered
    drain_ordered-Keeps s n h =
        let (out, b) = drain s.rbuf k in
        let parted = held-drain s.rbuf k in
        let moved : all_numbers s ≡ all_numbers (drain_ordered api k s) =
          ap (λ es. s.printed ++ numbers es) parted
          ∙ ap (λ xs. s.printed ++ xs) (map-append (λ e. e.0) out (held b))
          ∙ sym (append_assoc s.printed (numbers out) (numbers (held b))) in
        (
          Rises-eq 0 moved refl h,
          omega arith,
          ground (
            arith,
            ap (λ es. count n (packets es)) parted,
            ap (count n) (map-append (λ e. e.1) out (held b)),
            count-append n (packets out) (packets (held b)),
            count-append n s.freed (packets out),
          ),
        )

    round-cons :
        (s : State api) (m : ℕ) (ms : List ℕ)
        → round api k s (m ∷ ms) ≡ drain_ordered api k (insert_burst api s (m ∷ ms))
    unfolding round
    round-cons s m ms = ground arith

    round-Keeps :
        (s : State api) (rx : List ℕ) (n : ℕ)
        → Rises 0 (all_numbers s) s.seq_counter
        → s.seq_counter + length rx < 4294967296
        → Keeps s (round api k s rx) rx n
    unfolding round
    round-Keeps s [] n h less = (h, omega arith, omega arith)
    round-Keeps s (m ∷ ms) n h less =
        let (r, c, a) = insert_burst-Keeps s (m ∷ ms) n h less in
        let (r', c', a') = drain_ordered-Keeps (insert_burst api s (m ∷ ms)) n r in
        rw (round-cons s m ms) (r', omega (arith, c, c'), ground (arith, a, a'))

    run-Keeps :
        (s : State api) (bursts : List (List ℕ)) (n : ℕ)
        → Rises 0 (all_numbers s) s.seq_counter
        → s.seq_counter + length (arrivals bursts) < 4294967296
        → Keeps s (run api k s bursts) (arrivals bursts) n
    unfolding run
    run-Keeps s [] n h less = (h, omega arith, omega arith)
    run-Keeps s (rx ∷ bursts) n h less =
        let sum = length-append rx (arrivals bursts) in
        let (r, c, a) = round-Keeps s rx n h (omega (arith, sum)) in
        let (r', c', a') = run-Keeps (round api k s rx) bursts n r (omega (arith, sum, c)) in
        (r', omega (arith, sum, c, c'), ground (arith, a, a', count-append n rx (arrivals bursts)))

    -- With bursts of any size, from an empty buffer and for fewer than 2 ^ 32 packets: the numbers printed rise, and those of the
    -- packets still in the buffer rise behind them; `seq_counter` is the number of the packets received;
    -- and every packet that was received has been freed, as a refused one or after it was printed, or is
    -- in the buffer, as often as it was received.
    pub reorder_in_order :
        (b : Buffer) (bursts : List (List ℕ)) (m : ℕ)
        → held b ≡ []
        → length (arrivals bursts) < 4294967296
        → let t = run api k (launch api b) bursts in
          Rises 0 (all_numbers t) t.seq_counter
          × (t.seq_counter ≡ length (arrivals bursts))
          × (accounted t m ≡ count m (arrivals bursts))
    reorder_in_order b bursts m e less =
        let (r, c, a) =
          run-Keeps (launch api b) bursts m (Rises-eq 0 (ap numbers (sym e)) refl (omega arith))
            (omega (arith, less)) in
        (r, omega (arith, c), ground (arith, a, e))
