-- ===== src/PortLoops/Swap.antt =====
-- tranmit_packet/swap_addr/main.c: the loop over a burst.
use dpdk_starter.Base.{
  ℕ, ◌+◌, ◌-◌, ◌≤◌, ◌≡◌, refl, ap, ◌∙◌, Bool, true, false, Bool-cases, inl, inr, ◌&&◌, List, [],
  ◌∷◌, ◌++◌, count, count-append, leb, ltb, ◌==◌, if◌then◌else◌, arith,
}
use dpdk_starter.Packet.{Mbuf}

-- An address is the six bytes at an offset; `rte_ether_addr_copy` reads them and stores them.
abbrev pub read_addr : Mbuf → ℕ → ℕ → ℕ
read_addr m off k = m.byte (off + k)

abbrev pub store_addr : Mbuf → ℕ → (ℕ → ℕ) → Mbuf
store_addr m off addr = record m {
  byte = λ j. if leb off j && ltb j (off + 6) then addr (j - off) else m.byte j;
}

-- The source address at offset 6 goes through `temp`.
unfoldable pub swap_addr : Mbuf → Mbuf
swap_addr m =
    let temp = read_addr m 6 in let m1 = store_addr m 6 (read_addr m 0) in store_addr m1 0 temp

-- The packet memory, what the driver has taken, and the packets freed.
pub record State : Type 0 where
  pub frame : ℕ → Mbuf
  pub sent : List ℕ
  pub freed : List ℕ

-- The body of the `for`; `taken` says whether `rte_eth_tx_burst` returns 1.
unfoldable pub swap_packet : State → ℕ → Bool → State
swap_packet s m taken =
    let t = record s { frame = λ a. if a == m then swap_addr (s.frame a) else s.frame a } in
    if taken
    then record t { sent = s.sent ++ (m ∷ []) }
    else record t { freed = s.freed ++ (m ∷ []) }

unfoldable pub swap_burst : State → List (ℕ × Bool) → State
swap_burst s [] = s
swap_burst s ((m, taken) ∷ burst) = swap_burst (swap_packet s m taken) burst

abbrev pub packets : List (ℕ × Bool) → List ℕ
packets [] = []
packets ((m, taken) ∷ burst) = m ∷ packets burst

-- The byte of the swapped frame.
abbrev pub swapped : Mbuf → ℕ → ℕ
swapped m j = if ltb j 6 then m.byte (j + 6) else if ltb j 12 then m.byte (j - 6) else m.byte j

swap_addr-byte : (m : Mbuf) (j : ℕ) → (swap_addr m).byte j ≡ swapped m j
unfolding swap_addr
swap_addr-byte m j =
    let source : 6 + (j - 0) ≡ j + 6 = omega arith in
    let destination : 0 + (j - 6) ≡ j - 6 = omega arith in
    ground (arith, ap m.byte source, ap m.byte destination)

-- Swapped twice, every byte of the frame is what it was.
pub swap_addr-swap_addr : (m : Mbuf) (j : ℕ) → (swap_addr (swap_addr m)).byte j ≡ m.byte j
swap_addr-swap_addr m j = elim (Bool-cases (ltb j 6)) [
  | inl low ↦
      let back : (j + 6) - 6 ≡ j = omega arith in
      ground (arith, low, swap_addr-byte (swap_addr m) j, swap_addr-byte m (j + 6), ap m.byte back)
  | inr rest ↦ elim (Bool-cases (ltb j 12)) [
    | inl high ↦
        let back : (j - 6) + 6 ≡ j = ground arith in
        ground (
          arith,
          rest,
          high,
          swap_addr-byte (swap_addr m) j,
          swap_addr-byte m (j - 6),
          ap m.byte back,
        )
    | inr behind ↦ ground (arith, rest, behind, swap_addr-byte (swap_addr m) j, swap_addr-byte m j)
  ]
]

swapped-bytes : (a b : Mbuf) (j : ℕ) → ((k : ℕ) → a.byte k ≡ b.byte k) → swapped a j ≡ swapped b j
swapped-bytes a b j h = ground (arith, h j, h (j + 6), h (j - 6))

swap_packet-count :
    (s : State) (p : ℕ) (taken : Bool) (m : ℕ)
    → let t = swap_packet s p taken in
      count m t.sent + count m t.freed ≡ count m s.sent + count m s.freed + count m (p ∷ [])
unfolding swap_packet
swap_packet-count s p true m = ground (arith, count-append m s.sent (p ∷ []))
swap_packet-count s p false m = ground (arith, count-append m s.freed (p ∷ []))

swap_packet-frame :
    (s : State) (p : ℕ) (taken : Bool) (m j : ℕ)
    → ((swap_packet s p taken).frame m).byte j
      ≡ (if m == p then swapped (s.frame m) j else (s.frame m).byte j)
unfolding swap_packet
swap_packet-frame s p true m j = ground (arith, swap_addr-byte (s.frame m) j)
swap_packet-frame s p false m j = ground (arith, swap_addr-byte (s.frame m) j)

swap_burst-other :
    (s : State) (burst : List (ℕ × Bool)) (m j : ℕ)
    → count m (packets burst) ≡ 0
    → ((swap_burst s burst).frame m).byte j ≡ (s.frame m).byte j
unfolding swap_burst
swap_burst-other s [] m j h = refl
swap_burst-other s ((p, taken) ∷ burst) m j h =
    let other : (m == p) ≡ false = ground arith in
    let rest : count m (packets burst) ≡ 0 = ground arith in
    swap_burst-other (swap_packet s p taken) burst m j rest
    ∙ ground (arith, other, swap_packet-frame s p taken m j)

swap_burst-once :
    (s : State) (burst : List (ℕ × Bool)) (m j : ℕ)
    → count m (packets burst) ≡ 1
    → ((swap_burst s burst).frame m).byte j ≡ swapped (s.frame m) j
unfolding swap_burst
swap_burst-once s [] m j h = absurd (omega arith)
swap_burst-once s ((p, taken) ∷ burst) m j h = elim (Bool-cases (m == p)) [
  | inl same ↦
      let rest : count m (packets burst) ≡ 0 = ground arith in
      swap_burst-other (swap_packet s p taken) burst m j rest
      ∙ ground (arith, same, swap_packet-frame s p taken m j)
  | inr other ↦
      let rest : count m (packets burst) ≡ 1 = ground arith in
      swap_burst-once (swap_packet s p taken) burst m j rest
      ∙ swapped-bytes ((swap_packet s p taken).frame m) (s.frame m) j
          (λ k. ground (arith, other, swap_packet-frame s p taken m k))
]

swap_burst-count :
    (s : State) (burst : List (ℕ × Bool)) (m : ℕ)
    → let t = swap_burst s burst in
      count m t.sent + count m t.freed ≡ count m s.sent + count m s.freed + count m (packets burst)
unfolding swap_burst
swap_burst-count s [] m = omega arith
swap_burst-count s ((p, taken) ∷ burst) m = omega (
  arith,
  swap_burst-count (swap_packet s p taken) burst m,
  swap_packet-count s p taken m,
  count-append m (p ∷ []) (packets burst),
)

-- In a burst that has a packet at most once: the packet's destination and source addresses are
-- exchanged if it is in the burst, and no other byte of it, and no byte of a packet outside the burst,
-- is changed; and the packet is sent or freed, once, if it is in the burst.
pub swap_burst-swapped :
    (s : State) (burst : List (ℕ × Bool)) (m j : ℕ)
    → count m (packets burst) ≤ 1
    → let t = swap_burst s burst in
      ((t.frame m).byte j
        ≡ (if ltb 0 (count m (packets burst)) then swapped (s.frame m) j else (s.frame m).byte j))
      × (count m t.sent + count m t.freed
          ≡ count m s.sent + count m s.freed + count m (packets burst))
swap_burst-swapped s burst m j le = elim (Bool-cases (ltb 0 (count m (packets burst)))) [
  | inl inside ↦
      let once : count m (packets burst) ≡ 1 = ground arith in
      (ground (arith, inside, swap_burst-once s burst m j once), swap_burst-count s burst m)
  | inr outside ↦
      let never : count m (packets burst) ≡ 0 = ground arith in
      (ground (arith, outside, swap_burst-other s burst m j never), swap_burst-count s burst m)
]
