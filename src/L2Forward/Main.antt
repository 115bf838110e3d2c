-- ===== src/L2Forward/Main.antt =====
-- The three packets of `main` in l2_forwarding/main.c.
use dpdk_starter.Base.{ℕ, ◌≡◌, true, none, List, [], ◌∷◌, arith}
use dpdk_starter.L2Forward.{
  HashApi, Action, forward, flood, Arrival, flood_packet, mac_learn, mac_lookup, process_packet,
  process_all,
}

-- AA:BB:CC:DD:EE:01 and AA:BB:CC:DD:EE:03; the address B is not used.
abbrev pub mac_a : ℕ
mac_a = 187723572702721

abbrev pub mac_c : ℕ
mac_c = 187723572702723

abbrev pub main_packets : List Arrival
main_packets =
    record { src = mac_a; dst = mac_c; in_port = 0 }
    ∷ record { src = mac_c; dst = mac_a; in_port = 2 }
    ∷ record { src = mac_a; dst = mac_c; in_port = 0 }
    ∷ []

module _ (api : HashApi) where
  open api use {Table, add, lookup, lookup-add_ok}

  abbrev pub main_actions : Table → List Action
  main_actions t = process_all api t main_packets

  -- On a table that has neither address and takes the three entries, the first packet is flooded to the
  -- ports 1, 2 and 3, and the other two go to port 0 and to port 2.
  pub main_actions_lem :
      (t : Table)
      → lookup t mac_c ≡ none
      → (add t mac_a 0).0 ≡ true
      → (add (add t mac_a 0).1 mac_c 2).0 ≡ true
      → (add (add (add t mac_a 0).1 mac_c 2).1 mac_a 0).0 ≡ true
      → main_actions t ≡ flood (1 ∷ 2 ∷ 3 ∷ []) ∷ forward 0 ∷ forward 2 ∷ []
  unfolding process_all process_packet mac_lookup mac_learn flood_packet
  main_actions_lem t new ok ok2 ok3 = ground (
    arith,
    lookup-add_ok t mac_a 0 mac_c ok,
    lookup-add_ok t mac_a 0 mac_a ok,
    lookup-add_ok (add t mac_a 0).1 mac_c 2 mac_a ok2,
    lookup-add_ok (add t mac_a 0).1 mac_c 2 mac_c ok2,
    lookup-add_ok (add (add t mac_a 0).1 mac_c 2).1 mac_a 0 mac_c ok3,
  )
