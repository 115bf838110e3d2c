-- ===== src/PortLoops/Callback.antt =====
-- rxtx_callbacks/sample/simple.c: the driver calls `my_rx_callback` in `rte_eth_rx_burst`.
use dpdk_starter.Base.{
  ℕ, ◌+◌, ◌≡◌, refl, List, [], ◌∷◌, ◌++◌, length, length-append, u64, ltb, if◌then◌else◌, arith,
}

-- `rx_count`, the counts printed, and the packets freed.
pub record State : Type 0 where
  pub rx_count : ℕ
  pub printed : List (ℕ × ℕ)
  pub freed : List ℕ

abbrev pub initial : State
initial = record { rx_count = 0; printed = []; freed = [] }

-- `*counter += nb_pkts`
unfoldable pub my_rx_callback : State → ℕ → State
my_rx_callback s nb_pkts = record s { rx_count = u64 (s.rx_count + nb_pkts) }

-- A round of the loop on what the driver stores, whose callback has been called then.
unfoldable pub rx_round : State → List ℕ → State
rx_round s0 pkts =
    let s = my_rx_callback s0 (length pkts) in
    if ltb 0 (length pkts)
    then record s {
      printed = s.printed ++ ((length pkts, s.rx_count) ∷ []);
      freed = s.freed ++ pkts;
    }
    else s

unfoldable pub run : State → List (List ℕ) → State
run s [] = s
run s (pkts ∷ bursts) = run (rx_round s pkts) bursts

rx_round-count :
    (s : State) (pkts : List ℕ)
    → s.rx_count ≡ u64 (length s.freed)
    → (rx_round s pkts).rx_count ≡ u64 (length (rx_round s pkts).freed)
unfolding rx_round my_rx_callback
rx_round-count s [] h = ground (arith, h)
rx_round-count s (p ∷ pkts) h = ground (arith, h, length-append s.freed (p ∷ pkts))

run_from :
    (s : State) (bursts : List (List ℕ))
    → s.rx_count ≡ u64 (length s.freed)
    → (run s bursts).rx_count ≡ u64 (length (run s bursts).freed)
unfolding run
run_from s [] h = h
run_from s (pkts ∷ bursts) h = run_from (rx_round s pkts) bursts (rx_round-count s pkts h)

-- The counter of the callback is the number of the packets that the loop has freed, modulo 2 ^ 64.
pub run-rx_count :
    (bursts : List (List ℕ))
    → (run initial bursts).rx_count ≡ u64 (length (run initial bursts).freed)
run-rx_count bursts = run_from initial bursts refl
