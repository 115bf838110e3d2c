-- ===== src/Seqno/Numbers.antt =====
-- What the loop assigns and frees, and when it ends.
use Prim.Native.Nat.{min}
use dpdk_starter.Base.{
  ℕ, zero, suc, ◌+◌, ◌≤◌, ◌<◌, ◌≡◌, sym, ◌∙◌, ap, List, [], ◌∷◌, ◌++◌, length, take, length-append,
  ltb, leb, if◌then◌else◌, arith,
}
use mathlib.Core.List.{append_assoc, append-nil}
use mathlib.Core.Path.{subst}
use dpdk_starter.Seqno.{
  Assigned, State, initial, process_packet, process_burst, waiting, left, lcore_main_loop,
}

-- Consecutive numbers from `n` on.
abbrev pub number_from : ℕ → List ℕ → List Assigned
number_from n [] = []
number_from n (pkt ∷ pkts) = record { pkt = pkt; seqno = n } ∷ number_from (suc n) pkts

-- The packets of all bursts.
abbrev pub concat : List (List ℕ) → List ℕ
concat [] = []
concat (b ∷ bs) = b ++ concat bs

-- What the loop has after these packets.
abbrev pub result : List ℕ → State
result pkts = record {
  seq = min 10 (length pkts);
  assigned = number_from 0 (take 10 pkts);
  freed = pkts;
}

number_from-snoc :
    (k n : ℕ) (xs : List ℕ) (x : ℕ)
    → number_from n (take k (xs ++ (x ∷ [])))
      ≡ number_from n (take k xs)
        ++ (if ltb (length xs) k then record { pkt = x; seqno = n + length xs } ∷ [] else [])
number_from-snoc zero n [] x = ground arith
number_from-snoc zero n (y ∷ xs) x = ground arith
number_from-snoc (suc zero) n [] x = ground arith
number_from-snoc (suc (suc k)) n [] x = ground arith
number_from-snoc (suc k) n (y ∷ xs) x = ground (arith, number_from-snoc k (suc n) xs x)

process_packet-result :
    (pkts : List ℕ) (pkt : ℕ) → process_packet (result pkts) pkt ≡ result (pkts ++ (pkt ∷ []))
unfolding process_packet
process_packet-result pkts pkt =
    ground (arith, number_from-snoc 10 0 pkts pkt, length-append pkts (pkt ∷ []))

process_burst-result :
    (pkts burst : List ℕ) → process_burst (result pkts) burst ≡ result (pkts ++ burst)
unfolding process_burst
process_burst-result pkts [] = ap result (sym (append-nil pkts))
process_burst-result pkts (pkt ∷ burst) = rw (process_packet-result pkts pkt) (
    process_burst-result (pkts ++ (pkt ∷ [])) burst
    ∙ ap result (append_assoc pkts (pkt ∷ []) burst))

loop_step :
    (pkts : List ℕ) (b : ℕ) (bs : List ℕ) (bursts : List (List ℕ))
    → let all = pkts ++ (b ∷ bs) in
      lcore_main_loop (result pkts) ((b ∷ bs) ∷ bursts) ≡ (
        if leb 10 (length all)
        then left (result all) bursts
        else lcore_main_loop (result all) bursts)
unfolding lcore_main_loop
loop_step pkts b bs bursts = rw (process_burst-result pkts (b ∷ bs)) (ground arith)

waits_step :
    (pkts : List ℕ) (b : ℕ) (bs : List ℕ) (bursts : List (List ℕ))
    → let all = pkts ++ (b ∷ bs) in
      length (all ++ concat bursts) < 10
      → lcore_main_loop (result pkts) ((b ∷ bs) ∷ bursts) ≡ lcore_main_loop (result all) bursts
waits_step pkts b bs bursts h =
    ground (arith, loop_step pkts b bs bursts, length-append (pkts ++ (b ∷ bs)) (concat bursts))

waits_from :
    (pkts : List ℕ) (bursts : List (List ℕ))
    → length (pkts ++ concat bursts) < 10
    → lcore_main_loop (result pkts) bursts ≡ waiting (result (pkts ++ concat bursts))
unfolding lcore_main_loop
waits_from pkts [] h = ap (λ l. waiting (result l)) (sym (append-nil pkts))
waits_from pkts ([] ∷ bursts) h = waits_from pkts bursts h
waits_from pkts ((b ∷ bs) ∷ bursts) h =
    let e = append_assoc pkts (b ∷ bs) (concat bursts) in
    let short = subst (λ l. length l < 10) (sym e) h in
    waits_step pkts b bs bursts short
    ∙ waits_from (pkts ++ (b ∷ bs)) bursts short
    ∙ ap (λ l. waiting (result l)) e

leaves_from :
    (pkts : List ℕ) (before : List (List ℕ)) (burst : List ℕ) (after : List (List ℕ))
    → length (pkts ++ concat before) < 10
    → 10 ≤ length (pkts ++ concat before ++ burst)
    → lcore_main_loop (result pkts) (before ++ (burst ∷ after))
      ≡ left (result (pkts ++ concat before ++ burst)) after
unfolding lcore_main_loop
leaves_from pkts [] [] after h k = ground (arith, append-nil pkts, append-nil (pkts ++ []))
leaves_from pkts [] (b ∷ bs) after h k = ground (arith, loop_step pkts b bs after, append-nil pkts)
leaves_from pkts ([] ∷ before) burst after h k = leaves_from pkts before burst after h k
leaves_from pkts ((b ∷ bs) ∷ before) burst after h k = ground (
  arith,
  loop_step pkts b bs (before ++ (burst ∷ after)),
  append_assoc pkts (b ∷ bs) (concat before),
  length-append (pkts ++ (b ∷ bs)) (concat before),
  leaves_from (pkts ++ (b ∷ bs)) before burst after,
)

-- Until ten packets have come, the loop goes on, and every packet has been numbered from 0 on, in the
-- order of its arrival, and freed.
pub lcore_main_loop-waits :
    (bursts : List (List ℕ))
    → length (concat bursts) < 10
    → lcore_main_loop initial bursts ≡ waiting (result (concat bursts))
lcore_main_loop-waits bursts h = waits_from [] bursts h

-- The loop is left at the burst that brings the tenth packet, and not before: then the first ten
-- packets have the numbers 0 to 9 in the order of their arrival, all packets received are freed, the
-- ones of that burst behind the tenth included, and the later bursts are not received.
pub lcore_main_loop-leaves :
    (before : List (List ℕ)) (burst : List ℕ) (after : List (List ℕ))
    → length (concat before) < 10
    → 10 ≤ length (concat before ++ burst)
    → lcore_main_loop initial (before ++ (burst ∷ after))
      ≡ left (result (concat before ++ burst)) after
lcore_main_loop-leaves before burst after h k = leaves_from [] before burst after h k
