-- ===== src/RxDrop/Tests.antt =====
-- An IPv4 packet and another one, and a driver that takes nothing.
use dpdk_starter.Base.{ℕ, refl, [], ◌∷◌, ◌++◌, replicate, ◌==◌, if◌then◌else◌, arith}
use dpdk_starter.Packet.{Mbuf, packet_of}
use dpdk_starter.RxDrop.{
  State, empty, rx_node_process, forward_one, forward_all, ipv4_node_process, tx_node_process,
  drop_node_process, Run, run_rx, run_ipv4, run_tx, run_drop, Reach, start, next,
}

abbrev ip_frame : Mbuf
ip_frame = packet_of (replicate 12 0 ++ (8 ∷ 0 ∷ []))

abbrev frame : ℕ → Mbuf
frame a = if a == 1 then ip_frame else packet_of []

abbrev received : State
received = record empty { ipv4 = 1 ∷ 2 ∷ [] }

abbrev sorted : State
sorted = record empty { tx = 1 ∷ []; dropped = 2 ∷ [] }

abbrev refused : State
refused = record empty { dropped = 2 ∷ []; lost = 1 ∷ [] }

abbrev done : State
done = record empty { lost = 1 ∷ []; freed = 2 ∷ [] }

receives : Run frame empty (1 ∷ 2 ∷ []) received
unfolding rx_node_process
receives = run_rx (1 ∷ 2 ∷ []) refl refl refl

sorts : Run frame received [] sorted
unfolding ipv4_node_process forward_all forward_one
sorts = run_ipv4 (λ e. ground (arith, e))

refuses : Run frame sorted [] refused
unfolding tx_node_process
refuses = run_tx 0 (omega arith) (λ e. ground (arith, e))

drops : Run frame refused [] done
unfolding drop_node_process
drops = run_drop (λ e. ground (arith, e))

reached : Reach frame (1 ∷ 2 ∷ []) done
reached = next (next (next (next start receives) sorts) refuses) drops
