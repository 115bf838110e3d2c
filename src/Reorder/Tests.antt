-- ===== src/Reorder/Tests.antt =====
-- Two bursts through a reorder buffer that is a list, and refuses a packet when it has two.
use dpdk_starter.Base.{
  ℕ, ◌≡◌, refl, sym, Bool, true, false, List, [], ◌∷◌, ◌++◌, length, length-take, take-append-drop,
  count, take, drop, ltb, if◌then◌else◌, arith,
}
use dpdk_starter.Reorder.{ReorderApi, launch, run, small_burst}
use dpdk_starter.Rising.{Rises}
use dpdk_starter.Reorder.Order.{all_numbers, accounted, arrivals, reorder_in_order}

abbrev two : ℕ
two = 2

abbrev put : List (ℕ × ℕ) → ℕ → ℕ → Bool × List (ℕ × ℕ)
put b seq m = if ltb (length b) two then (true, b ++ ((seq, m) ∷ [])) else (false, b)

put_ok :
    (b : List (ℕ × ℕ)) (seq m : ℕ) → (put b seq m).0 ≡ true → (put b seq m).1 ≡ b ++ ((seq, m) ∷ [])
put_ok b seq m h = ground arith

put_refused : (b : List (ℕ × ℕ)) (seq m : ℕ) → (put b seq m).0 ≡ false → (put b seq m).1 ≡ b
put_refused b seq m h = ground arith

abbrev small : ReorderApi
small = record {
  Buffer = List (ℕ × ℕ);
  held = λ b. b;
  insert = put;
  drain = λ b n. (take n b, drop n b);
  held-insert_last = λ b seq m below h. put_ok b seq m h;
  held-insert_refused = put_refused;
  held-drain = λ b n. sym (take-append-drop n b);
  drain_bound = λ b n. omega (arith, length-take n b);
}

abbrev bursts : List (List ℕ)
bursts = (7 ∷ 8 ∷ 9 ∷ []) ∷ [] ∷ (7 ∷ []) ∷ []

reorder_in_order_example :
    let t = run small small_burst (launch small []) bursts in
    Rises 0 (all_numbers small t) t.seq_counter
    × (t.seq_counter ≡ length (arrivals bursts))
    × (accounted small t 7 ≡ count 7 (arrivals bursts))
reorder_in_order_example = reorder_in_order small small_burst [] bursts 7 refl (omega arith)
