-- ===== src/L2Forward/Tests.antt =====
-- The packets of `main` in l2_forwarding/main.c on a small table, and the theorems there.
use dpdk_starter.Base.{
  ℕ, ◌≡◌, refl, Bool, true, false, Option, none, some, List, [], ◌∷◌, length, ltb, ◌==◌,
  if◌then◌else◌, arith,
}
use dpdk_starter.L2Forward.{
  HashApi, forward, flood, Arrival, flood_packet, mac_learn, mac_lookup, process_packet,
  process_all,
}
use dpdk_starter.L2Forward.Refine.{Agrees, decide_all, process_all-decide_all}

abbrev Entries : Type 0
Entries = List (ℕ × ℕ)

abbrev find : Entries → ℕ → Option ℕ
find [] j = none
find ((k, v) ∷ t) j = if k == j then some v else find t j

-- A table that takes 1024 calls.
abbrev put : Entries → ℕ → ℕ → Bool × Entries
put t k v = if ltb (length t) 1024 then (true, (k, v) ∷ t) else (false, t)

find-put_ok :
    (t : Entries) (k v j : ℕ)
    → (put t k v).0 ≡ true
    → find (put t k v).1 j ≡ (if k == j then some v else find t j)
find-put_ok t k v j h = ground arith

find-put_failed :
    (t : Entries) (k v j : ℕ) → (put t k v).0 ≡ false → find (put t k v).1 j ≡ find t j
find-put_failed t k v j h = ground arith

abbrev entries_api : HashApi
entries_api = record {
  Table = Entries;
  add = put;
  lookup = find;
  lookup-add_ok = find-put_ok;
  lookup-add_failed = find-put_failed;
}

-- A, B and C of `main`: 1, 2 and 3.
abbrev packets : List Arrival
packets =
    record { src = 1; dst = 3; in_port = 0 }
    ∷ record { src = 3; dst = 1; in_port = 2 }
    ∷ record { src = 1; dst = 3; in_port = 0 }
    ∷ []

main_run : process_all entries_api [] packets ≡ flood (1 ∷ 2 ∷ 3 ∷ []) ∷ forward 0 ∷ forward 2 ∷ []
unfolding process_all process_packet mac_learn mac_lookup flood_packet
main_run = refl

empty-Agrees : Agrees entries_api [] (λ _. none)
unfolding mac_lookup
empty-Agrees mac = refl

process_all-decide_all_example : process_all entries_api [] packets ≡ decide_all (λ _. none) packets
process_all-decide_all_example =
    process_all-decide_all entries_api [] (λ _. none) packets
      (refl, omega arith, (refl, omega arith, (refl, omega arith, tt))) empty-Agrees
