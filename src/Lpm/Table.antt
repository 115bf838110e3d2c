-- ===== src/Lpm/Table.antt =====
-- longest_prefix_match_lpm/ipv4table/main.c: three routes, each inside the one before it, and a lookup.
use dpdk_starter.Base.{
  ℕ, ◌<◌, ◌≡◌, true, false, ◌&&◌, Option, none, some, [], ◌∷◌, List, ◌==◌, if◌then◌else◌, arith,
}
use dpdk_starter.Packet.{rte_ipv4}
use dpdk_starter.Lpm.{Route, covers, LpmApi}

-- The calls of `rte_lpm_add`, whose results are not looked at.
abbrev pub net10 : Route
net10 = record { ip = rte_ipv4 10 0 0 0; depth = 8; next_hop = 1 }

abbrev pub net10_1 : Route
net10_1 = record { ip = rte_ipv4 10 1 0 0; depth = 16; next_hop = 2 }

abbrev pub net10_1_1 : Route
net10_1_1 = record { ip = rte_ipv4 10 1 1 0; depth = 24; next_hop = 3 }

abbrev pub table : List Route
table = net10 ∷ net10_1 ∷ net10_1_1 ∷ []

-- The next hop that is printed, or none for `No route found`.
unfoldable pub print_route : LpmApi → ℕ → Option ℕ
print_route api dst_ip = api.lookup table dst_ip

-- The next hop by the bytes of the address.
abbrev pub nested_hop : ℕ → ℕ → ℕ → Option ℕ
nested_hop a b c =
    if a == 10 then (if b == 1 then (if c == 1 then some 3 else some 2) else some 1) else none

module _ (api : LpmApi) (a b c d : ℕ) (ha : a < 256) (hb : b < 256) (hc : c < 256)
    (hd : d < 256) where
  open api use {lookup, lookup_none, lookup_longest}

  covers-net10 : covers net10 (rte_ipv4 a b c d) ≡ (a == 10)
  unfolding covers
  covers-net10 = ground arith

  covers-net10_1 : covers net10_1 (rte_ipv4 a b c d) ≡ (a == 10 && b == 1)
  unfolding covers
  covers-net10_1 = ground arith

  covers-net10_1_1 : covers net10_1_1 (rte_ipv4 a b c d) ≡ (a == 10 && b == 1 && c == 1)
  unfolding covers
  covers-net10_1_1 = ground arith

  print_inside :
      covers net10_1_1 (rte_ipv4 a b c d) ≡ true → lookup table (rte_ipv4 a b c d) ≡ some 3
  print_inside m =
      lookup_longest (net10 ∷ net10_1 ∷ []) net10_1_1 [] (rte_ipv4 a b c d) m
        ((λ _. omega arith), ((λ _. omega arith), tt))

  print_middle :
      covers net10_1_1 (rte_ipv4 a b c d) ≡ false
      → covers net10_1 (rte_ipv4 a b c d) ≡ true
      → lookup table (rte_ipv4 a b c d) ≡ some 2
  print_middle n m =
      lookup_longest (net10 ∷ []) net10_1 (net10_1_1 ∷ []) (rte_ipv4 a b c d) m
        ((λ _. omega arith), ((λ e. cc), tt))

  print_outside :
      covers net10_1_1 (rte_ipv4 a b c d) ≡ false
      → covers net10_1 (rte_ipv4 a b c d) ≡ false
      → covers net10 (rte_ipv4 a b c d) ≡ true
      → lookup table (rte_ipv4 a b c d) ≡ some 1
  print_outside n o m =
      lookup_longest [] net10 (net10_1 ∷ net10_1_1 ∷ []) (rte_ipv4 a b c d) m
        ((λ e. cc), ((λ e. cc), tt))

  print_nothing :
      covers net10_1_1 (rte_ipv4 a b c d) ≡ false
      → covers net10_1 (rte_ipv4 a b c d) ≡ false
      → covers net10 (rte_ipv4 a b c d) ≡ false
      → lookup table (rte_ipv4 a b c d) ≡ none
  print_nothing n o p = lookup_none table (rte_ipv4 a b c d) (p, (o, (n, tt)))

  -- For every address a.b.c.d, on any lib/lpm that finds the longest prefix: inside 10.1.1.0/24 the next
  -- hop is 3, in the rest of 10.1.0.0/16 it is 2, in the rest of 10.0.0.0/8 it is 1, and elsewhere
  -- there is none, although the routes are added from the shortest prefix on.
  pub print_route-nested_hop : print_route api (rte_ipv4 a b c d) ≡ nested_hop a b c
  unfolding print_route
  print_route-nested_hop = ground (
    arith, covers-net10, covers-net10_1, covers-net10_1_1, print_inside, print_middle,
    print_outside, print_nothing,
  )
