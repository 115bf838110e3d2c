-- ===== src/Lpm/Routing.antt =====
-- The next hop of every address.
use dpdk_starter.Base.{
  ℕ, ◌<◌, ◌≡◌, true, false, ◌&&◌, Option, none, some, [], ◌∷◌, ◌==◌, leb, ltb, if◌then◌else◌, arith,
}
use dpdk_starter.Packet.{Mbuf, be16, be32, IsBytes, ether_type_ipv4, rte_ipv4}
use dpdk_starter.Lpm.{
  covers, LpmApi, net10_1_2, net10_1, net192, net160, routes, passed_over, transmitted,
  handle_packet,
}

-- The next hop by the bytes of the address: 10.1.2.x, 10.1.x.x, 192.x.x.x, and 160 to 175.
abbrev pub next_hop : ℕ → ℕ → ℕ → Option ℕ
next_hop a b c =
    if a == 10 && b == 1
    then if c == 2 then some 1 else some 2
    else if a == 192
    then some 3
    else if leb 160 a && ltb a 176
    then some 4
    else none

module _ (api : LpmApi) (a b c d : ℕ) (ha : a < 256) (hb : b < 256) (hc : c < 256)
    (hd : d < 256) where
  open api use {lookup, lookup_none, lookup_longest}

  covers-net10_1_2 : covers net10_1_2 (rte_ipv4 a b c d) ≡ (a == 10 && b == 1 && c == 2)
  unfolding covers
  covers-net10_1_2 = ground arith

  covers-net10_1 : covers net10_1 (rte_ipv4 a b c d) ≡ (a == 10 && b == 1)
  unfolding covers
  covers-net10_1 = ground arith

  covers-net192 : covers net192 (rte_ipv4 a b c d) ≡ (a == 192)
  unfolding covers
  covers-net192 = ground arith

  covers-net160 : covers net160 (rte_ipv4 a b c d) ≡ (leb 160 a && ltb a 176)
  unfolding covers
  covers-net160 = ground arith

  by_10_1_2 : covers net10_1_2 (rte_ipv4 a b c d) ≡ true → lookup routes (rte_ipv4 a b c d) ≡ some 1
  by_10_1_2 m =
      lookup_longest [] net10_1_2 (net10_1 ∷ net192 ∷ net160 ∷ []) (rte_ipv4 a b c d) m
        ((λ _. omega arith), ((λ _. omega arith), ((λ _. omega arith), tt)))

  by_10_1 :
      covers net10_1_2 (rte_ipv4 a b c d) ≡ false
      → covers net10_1 (rte_ipv4 a b c d) ≡ true
      → lookup routes (rte_ipv4 a b c d) ≡ some 2
  by_10_1 n m =
      lookup_longest (net10_1_2 ∷ []) net10_1 (net192 ∷ net160 ∷ []) (rte_ipv4 a b c d) m
        ((λ e. cc), ((λ _. omega arith), ((λ _. omega arith), tt)))

  by_192 :
      covers net10_1_2 (rte_ipv4 a b c d) ≡ false
      → covers net10_1 (rte_ipv4 a b c d) ≡ false
      → covers net192 (rte_ipv4 a b c d) ≡ true
      → lookup routes (rte_ipv4 a b c d) ≡ some 3
  by_192 n o m =
      lookup_longest (net10_1_2 ∷ net10_1 ∷ []) net192 (net160 ∷ []) (rte_ipv4 a b c d) m
        ((λ e. cc), ((λ e. cc), ((λ _. omega arith), tt)))

  by_160 :
      covers net10_1_2 (rte_ipv4 a b c d) ≡ false
      → covers net10_1 (rte_ipv4 a b c d) ≡ false
      → covers net192 (rte_ipv4 a b c d) ≡ false
      → covers net160 (rte_ipv4 a b c d) ≡ true
      → lookup routes (rte_ipv4 a b c d) ≡ some 4
  by_160 n o p m =
      lookup_longest (net10_1_2 ∷ net10_1 ∷ net192 ∷ []) net160 [] (rte_ipv4 a b c d) m
        ((λ e. cc), ((λ e. cc), ((λ e. cc), tt)))

  by_none :
      covers net10_1_2 (rte_ipv4 a b c d) ≡ false
      → covers net10_1 (rte_ipv4 a b c d) ≡ false
      → covers net192 (rte_ipv4 a b c d) ≡ false
      → covers net160 (rte_ipv4 a b c d) ≡ false
      → lookup routes (rte_ipv4 a b c d) ≡ none
  by_none n o p q = lookup_none routes (rte_ipv4 a b c d) (n, (o, (p, (q, tt))))

  lookup-routes : lookup routes (rte_ipv4 a b c d) ≡ next_hop a b c
  lookup-routes = ground (
    arith, covers-net10_1_2, covers-net10_1, covers-net192, covers-net160, by_10_1_2, by_10_1,
    by_192, by_160, by_none,
  )

-- An IPv4 packet is transmitted after the next hop of its destination is printed: 1 for 10.1.2.x, 2 for
-- the rest of 10.1.x.x, 3 for 192.x.x.x, 4 for 160.x.x.x to 175.x.x.x, and none for other addresses;
-- any other packet is passed over.
pub handle_packet-next_hop :
    (api : LpmApi) (m : Mbuf)
    → IsBytes m
    → handle_packet api m ≡ (
        if be16 m 12 == ether_type_ipv4
        then transmitted (next_hop (m.byte 30) (m.byte 31) (m.byte 32))
        else passed_over)
unfolding handle_packet
handle_packet-next_hop api m h =
    let hop =
      lookup-routes api (m.byte 30) (m.byte 31) (m.byte 32) (m.byte 33) (h 30) (h 31) (h 32)
        (h 33) in
    let same : be32 m 30 ≡ rte_ipv4 (m.byte 30) (m.byte 31) (m.byte 32) (m.byte 33) = omega arith in
    rw (same, hop) (ground arith)
