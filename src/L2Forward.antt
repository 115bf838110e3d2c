-- ===== src/L2Forward.antt =====
-- l2_forwarding/main.c: a learning switch over a DPDK hash table.
pub mod Refine
pub mod Main
pub mod Flood
mod Tests
use dpdk_starter.Base.{
  ℕ, zero, suc, ◌+◌, ◌≡◌, Bool, true, false, not, Option, none, some, List, [], ◌∷◌, ◌==◌,
  if◌then◌else◌, u16,
}

-- lib/hash of DPDK, which is not part of the repository: a table from 6-byte keys to pointers. `add`
-- returns whether the result is not negative. The manual: a key that is added is found with its
-- data, also if it was there before; adding it changes no other key; a failed call changes nothing.
pub record HashApi : Type 1 where
  pub Table : Type 0
  pub add : Table → ℕ → ℕ → Bool × Table
  pub lookup : Table → ℕ → Option ℕ
  pub lookup-add_ok :
      (t : Table) (k v j : ℕ)
      → (add t k v).0 ≡ true
      → lookup (add t k v).1 j ≡ (if k == j then some v else lookup t j)
  pub lookup-add_failed :
      (t : Table) (k v j : ℕ) → (add t k v).0 ≡ false → lookup (add t k v).1 j ≡ lookup t j

abbrev pub max_ports : ℕ
max_ports = 4

-- What `process_packet` prints: the one port, or the ports of the flood.
pub data Action : Type 0 where
  forward : ℕ → Action
  flood : List ℕ → Action

-- A MAC address is the number of its six bytes; a port is a uint16_t.
pub record Arrival : Type 0 where
  pub src : ℕ
  pub dst : ℕ
  pub in_port : ℕ

-- The `for` of `flood_packet`, with `n` rounds left from port `p` on.
unfoldable pub flood_from : ℕ → ℕ → ℕ → List ℕ
flood_from zero p in_port = []
flood_from (suc n) p in_port =
    let rest = flood_from n (p + 1) in_port in if not (p == in_port) then p ∷ rest else rest

unfoldable pub flood_packet : ℕ → List ℕ
unfolding flood_from
flood_packet in_port = flood_from max_ports 0 in_port

module _ (api : HashApi) where
  open api use {Table, add, lookup}

  -- The result of `rte_hash_add_key_data` is not looked at.
  unfoldable pub mac_learn : Table → ℕ → ℕ → Table
  mac_learn t src_mac port = (add t src_mac port).1

  -- 0 and `*port`, or -1.
  unfoldable pub mac_lookup : Table → ℕ → Option ℕ
  mac_lookup t dst_mac = elim (lookup t dst_mac) [ none ↦ none | some p ↦ some (u16 p) ]

  unfoldable pub process_packet : Table → Arrival → Table × Action
  process_packet t a =
      let t' = mac_learn t a.src a.in_port in
      elim (mac_lookup t' a.dst) [
        | some out_port ↦ (t', forward out_port)
        | none ↦ (t', flood (flood_packet a.in_port))
      ]

  -- The packets of `main` one after another, on one table.
  unfoldable pub process_all : Table → List Arrival → List Action
  process_all t [] = []
  process_all t (a ∷ rest) = let (t', action) = process_packet t a in action ∷ process_all t' rest
