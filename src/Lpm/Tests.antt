-- ===== src/Lpm/Tests.antt =====
-- A packet to 172.16.0.1.
use dpdk_starter.Base.{ℕ, ◌≡◌, refl, some, List, [], ◌∷◌, ◌++◌, replicate}
use dpdk_starter.Packet.{packet_of, packet_of-IsBytes}
use dpdk_starter.Lpm.{transmitted, handle_packet}
use dpdk_starter.Lpm.Search.{search_api}
use dpdk_starter.Lpm.Routing.{handle_packet-next_hop}

abbrev bytes : List ℕ
bytes = replicate 12 0 ++ (8 ∷ 0 ∷ 0x45 ∷ replicate 15 0) ++ (172 ∷ 16 ∷ 0 ∷ 1 ∷ [])

handle_packet-next_hop_example : handle_packet search_api (packet_of bytes) ≡ transmitted (some 4)
handle_packet-next_hop_example =
    handle_packet-next_hop search_api (packet_of bytes) (packet_of-IsBytes bytes refl)
