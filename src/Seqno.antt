-- ===== src/Seqno.antt =====
-- reordering/dynamic_seqno/main.c: the loop that numbers the first ten packets. Mbufs are named by
-- their addresses; the input is the sequence of bursts that rte_eth_rx_burst returns.
pub mod Numbers
mod Tests
use dpdk_starter.Base.{ℕ, suc, ◌<◌, Bool, true, false, List, [], ◌∷◌, ◌++◌, ltb, leb, if◌then◌else◌}

-- A sequence number that the dynamic field of an mbuf gets.
pub record Assigned : Type 0 where
  pub pkt : ℕ
  pub seqno : ℕ

-- `seq`, the numbers written, and the mbufs freed, in order.
pub record State : Type 0 where
  pub seq : ℕ
  pub assigned : List Assigned
  pub freed : List ℕ

abbrev pub initial : State
initial = record { seq = 0; assigned = []; freed = [] }

unfoldable pub process_packet : State → ℕ → State
process_packet s pkt =
    let numbered : State =
      if ltb s.seq 10
      then record s {
        seq = suc s.seq;
        assigned = s.assigned ++ (record { pkt = pkt; seqno = s.seq } ∷ []);
      }
      else s in
    record numbered { freed = numbered.freed ++ (pkt ∷ []) }

unfoldable pub process_burst : State → List ℕ → State
process_burst s [] = s
process_burst s (pkt ∷ pkts) = process_burst (process_packet s pkt) pkts

-- How the loop stands after the bursts: still waiting, or left, with the bursts it has not received.
pub data Loop : Type 0 where
  waiting : State → Loop
  left : State → List (List ℕ) → Loop

unfoldable pub lcore_main_loop : State → List (List ℕ) → Loop
lcore_main_loop s [] = waiting s
lcore_main_loop s ([] ∷ bursts) = lcore_main_loop s bursts
lcore_main_loop s ((pkt ∷ pkts) ∷ bursts) =
    let t = process_burst s (pkt ∷ pkts) in
    let rest = lcore_main_loop t bursts in if leb 10 t.seq then left t bursts else rest
