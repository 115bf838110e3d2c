-- ===== src/Segregation/Tests.antt =====
-- The classifier and the loop at concrete packets.
use dpdk_starter.Base.{
  ℕ, ◌+◌, ◌≡◌, ◌↔◌, refl, true, false, List, [], ◌∷◌, ◌++◌, length, count, u64, replicate, ltb,
  lt→ltb, ◌==◌, if◌then◌else◌,
}
use dpdk_starter.Packet.{Mbuf, packet_of}
use dpdk_starter.Ring.Bounded.{bounded_ring}
use dpdk_starter.Segregation.Classify.{
  is_control_tcp_port, is_control_udp_port, classify_l4, classify_ipv4, classify_packet,
}
use dpdk_starter.Segregation.Classify.Bounds.{SameData, classify_packet-SameData}
use dpdk_starter.Segregation.Classify.Spec.{IsControl, classify_packet_iff}
use dpdk_starter.Segregation.Loop.{
  State, Event, dispatch, run, round, dispatch_all, drain_control, drain_data, report,
}
use dpdk_starter.Segregation.Loop.Ledger.{held, received_of, run_conserves}
use dpdk_starter.Segregation.Loop.Sorting.{IsSorted, run-IsSorted}
use dpdk_starter.Segregation.Loop.Counters.{accounted, run-accounted}

-- 12 bytes of addresses, an IPv4 header and an L4 header of 20 bytes, to the given port.
abbrev ipv4_frame : ℕ → ℕ → ℕ → List ℕ
ipv4_frame proto port_hi port_lo =
    replicate 12 0
    ++ (0x08 ∷ 0 ∷ 0x45 ∷ replicate 8 0)
    ++ (proto ∷ replicate 10 0)
    ++ (0 ∷ 0 ∷ port_hi ∷ port_lo ∷ replicate 16 0)

abbrev ssh : Mbuf
ssh = packet_of (ipv4_frame 6 0 22)

abbrev http : Mbuf
http = packet_of (ipv4_frame 6 0 80)

-- The same TCP segment cut before the end of its header, with memory behind it that differs.
abbrev cut : Mbuf
cut = record ssh { data_len = 50 }

classes :
    (classify_packet ssh ≡ true)
    × (classify_packet http ≡ false)
    × (classify_packet cut ≡ false)
    × (classify_packet (packet_of (ipv4_frame 17 0 53)) ≡ true)
    × (classify_packet (packet_of (replicate 12 0 ++ (0x81 ∷ 0 ∷ 0 ∷ 7 ∷ 8 ∷ 6 ∷ []))) ≡ false)
unfolding classify_packet classify_ipv4 classify_l4 is_control_tcp_port is_control_udp_port
classes = (refl, refl, refl, refl, refl)

classify_packet_iff_example : (classify_packet ssh ≡ true) ↔ IsControl ssh
classify_packet_iff_example = classify_packet_iff ssh

-- The frame that is cut, with other memory behind its 50 bytes.
abbrev cut_other : Mbuf
cut_other = record { data_len = 50; byte = λ i. if ltb i 50 then ssh.byte i else 99 }

same_data : SameData cut cut_other
same_data = record { len = refl; bytes = λ i h. rw (lt→ltb i 50 h) }

classify_packet-SameData_example : classify_packet cut_other ≡ classify_packet cut
classify_packet-SameData_example = classify_packet-SameData cut cut_other same_data

abbrev memory : ℕ → Mbuf
memory a = if a == 1 then ssh else http

abbrev start : State bounded_ring
start = record {
  control_ring = [];
  data_ring = 5 ∷ [];
  control_count = 0;
  data_count = 1;
  last_ts = 0;
  freed = [];
  sent = [];
  unsent = [];
  printed = [];
}

abbrev events : List Event
events = record { received = 1 ∷ 2 ∷ []; taken_control = 0; taken_data = 5; now = 7 } ∷ []

-- The SSH packet is taken from the control ring and not sent; the two others are sent.
after_run :
    ((run bounded_ring memory start events).sent ≡ 5 ∷ 2 ∷ [])
    × ((run bounded_ring memory start events).unsent ≡ 1 ∷ [])
unfolding run round dispatch_all dispatch drain_control drain_data report classify_packet
    classify_ipv4 classify_l4 is_control_tcp_port
after_run = (refl, refl)

run_conserves_example :
    held bounded_ring 1 (run bounded_ring memory start events)
    ≡ held bounded_ring 1 start + count 1 (received_of events)
run_conserves_example = run_conserves bounded_ring memory start events 1

run-accounted_example :
    u64 (accounted bounded_ring (run bounded_ring memory start events))
    ≡ u64 (accounted bounded_ring start + length (received_of events))
run-accounted_example = run-accounted bounded_ring memory start events

start-IsSorted : IsSorted bounded_ring memory start
unfolding classify_packet classify_ipv4 classify_l4 is_control_tcp_port
start-IsSorted = record { control = tt; other = (refl, tt) }

run-IsSorted_example : IsSorted bounded_ring memory (run bounded_ring memory start events)
run-IsSorted_example = run-IsSorted bounded_ring memory start events start-IsSorted

abbrev full : State bounded_ring
full = record start { control_ring = 1 ∷ 3 ∷ [] }
