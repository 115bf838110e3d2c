-- ===== src/StaticNat/Loop.antt =====
-- One round of `lcore_main` (NAT/static_nat/main.c), over a memory of mbufs named by their addresses.
use dpdk_starter.Base.{
  ℕ, ◌+◌, ◌≡◌, refl, Bool, false, ◌||◌, List, [], ◌∷◌, ◌++◌, take, drop, length, count,
  count-take-drop, count-append, ltb, ◌==◌, if◌then◌else◌, arith,
}
use dpdk_starter.Packet.{Mbuf}
use dpdk_starter.StaticNat.{simulate_nat}
use dpdk_starter.StaticNat.Again.{simulate_nat_again}

-- The mbufs, what the driver took, and what it did not take, which is not freed.
pub record State : Type 0 where
  pub memory : ℕ → Mbuf
  pub sent : List ℕ
  pub lost : List ℕ

module _ (cksum : Mbuf → ℕ) where
  -- The `for` over the burst.
  unfoldable pub translate_all : (ℕ → Mbuf) → List ℕ → ℕ → Mbuf
  translate_all memory [] = memory
  translate_all memory (m ∷ ms) =
      translate_all (λ a. if a == m then simulate_nat cksum (memory a) else memory a) ms

  -- `rte_eth_rx_burst` stores `bufs`, and `rte_eth_tx_burst` returns `taken`.
  unfoldable pub lcore_round : State → List ℕ → ℕ → State
  lcore_round s bufs taken =
      if ltb 0 (length bufs)
      then record {
        memory = translate_all s.memory bufs;
        sent = s.sent ++ take taken bufs;
        lost = s.lost ++ drop taken bufs;
      }
      else s

  abbrev pub is_in : ℕ → List ℕ → Bool
  is_in a [] = false
  is_in a (m ∷ ms) = a == m || is_in a ms

  translate_all_lem :
      (memory : ℕ → Mbuf) (bufs : List ℕ) (a : ℕ)
      → translate_all memory bufs a
        ≡ (if is_in a bufs then simulate_nat cksum (memory a) else memory a)
  unfolding translate_all
  translate_all_lem memory [] a = refl
  translate_all_lem memory (m ∷ ms) a = ground (
    arith,
    translate_all_lem (λ b. if b == m then simulate_nat cksum (memory b) else memory b) ms a,
    simulate_nat_again cksum (memory a),
  )

  -- In a round every mbuf of the burst is translated once and no other mbuf is changed, and every
  -- packet of the burst is sent or lost, as often as it was received.
  pub lcore_round_lem :
      (s : State) (bufs : List ℕ) (taken a : ℕ)
      → let t = lcore_round s bufs taken in
        (t.memory a ≡ (if is_in a bufs then simulate_nat cksum (s.memory a) else s.memory a))
        × (count a t.sent + count a t.lost ≡ count a s.sent + count a s.lost + count a bufs)
  unfolding lcore_round
  lcore_round_lem s [] taken a = (refl, omega arith)
  lcore_round_lem s (m ∷ ms) taken a = ground (
    arith,
    translate_all_lem s.memory (m ∷ ms) a,
    count-take-drop a taken (m ∷ ms),
    count-append a s.sent (take taken (m ∷ ms)),
    count-append a s.lost (drop taken (m ∷ ms)),
  )
