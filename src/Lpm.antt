-- ===== src/Lpm.antt =====
-- longest_prefix_match_lpm/simple/main.c: the routes of `init_lpm` and the body of `main_loop`, over
-- lib/lpm of DPDK, which is not part of the repository.
pub mod Routing
pub mod Search
pub mod Table
mod Tests
use dpdk_starter.Base.{
  ℕ, ◌-◌, ◌/◌, ◌^◌, ◌<◌, ◌≡◌, Bool, true, false, not, Option, none, some, List, [], ◌∷◌, ◌++◌, ◌==◌,
  All, if◌then◌else◌,
}
use dpdk_starter.Packet.{Mbuf, be16, be32, ether_type_ipv4, rte_ipv4}

-- The arguments of `rte_lpm_add`.
pub record Route : Type 0 where
  pub ip : ℕ
  pub depth : ℕ
  pub next_hop : ℕ

-- The first `depth` bits of an address are those of the route.
unfoldable pub covers : Route → ℕ → Bool
covers r ip = ip / 2 ^ (32 - r.depth) == r.ip / 2 ^ (32 - r.depth)

-- `rte_lpm_lookup` in a table with these routes, by the manual of lib/lpm: the next hop of the longest
-- prefix that covers the address, or an error if none does.
pub record LpmApi : Type 0 where
  pub lookup : List Route → ℕ → Option ℕ
  pub lookup_none :
      (routes : List Route) (ip : ℕ)
      → All (λ r. covers r ip ≡ false) routes
      → lookup routes ip ≡ none
  pub lookup_longest :
      (before : List Route) (r : Route) (after : List Route) (ip : ℕ)
      → covers r ip ≡ true
      → All (λ q. covers q ip ≡ true → q.depth < r.depth) (before ++ after)
      → lookup (before ++ (r ∷ after)) ip ≡ some r.next_hop

-- `init_lpm`
abbrev pub net10_1_2 : Route
net10_1_2 = record { ip = rte_ipv4 10 1 2 0; depth = 24; next_hop = 1 }

abbrev pub net10_1 : Route
net10_1 = record { ip = rte_ipv4 10 1 0 0; depth = 16; next_hop = 2 }

abbrev pub net192 : Route
net192 = record { ip = rte_ipv4 192 0 0 0; depth = 8; next_hop = 3 }

abbrev pub net160 : Route
net160 = record { ip = rte_ipv4 172 0 0 0; depth = 4; next_hop = 4 }

abbrev pub routes : List Route
routes = net10_1_2 ∷ net10_1 ∷ net192 ∷ net160 ∷ []

-- What becomes of a packet: it is passed over, and its mbuf kept, or it is handed to the port after
-- the next hop, or the lack of one, is printed.
pub data Fate : Type 0 where
  passed_over : Fate
  transmitted : Option ℕ → Fate

unfoldable pub handle_packet : LpmApi → Mbuf → Fate
handle_packet api m =
    if not (be16 m 12 == ether_type_ipv4)
    then passed_over
    else transmitted (api.lookup routes (be32 m 30))
