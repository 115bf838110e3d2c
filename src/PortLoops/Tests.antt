-- ===== src/PortLoops/Tests.antt =====
-- A burst of two packets of which the driver takes one.
use dpdk_starter.Base.{refl, ℕ, ◌+◌, ◌≡◌, Bool, true, false, List, [], ◌∷◌}
use dpdk_starter.Packet.{Mbuf}
use dpdk_starter.PortLoops.Swap.{State, swap_addr, swap_packet, swap_burst}
use dpdk_starter.PortLoops.Vhost.{backend_run, backend_round}

abbrev frame : ℕ → Mbuf
frame a = record { data_len = 64; byte = λ j. a + j }

abbrev s₀ : State
s₀ = record { frame = frame; sent = []; freed = [] }

abbrev burst : List (ℕ × Bool)
burst = (100, true) ∷ (200, false) ∷ []

-- The packet that the driver takes is sent, the other one freed, both with their addresses swapped.
burst_freed : (swap_burst s₀ burst).freed ≡ 200 ∷ []
unfolding swap_burst swap_packet swap_addr
burst_freed = refl

burst_swapped : ((swap_burst s₀ burst).frame 200).byte 3 ≡ (frame 200).byte 9
unfolding swap_burst swap_packet swap_addr
burst_swapped = refl

-- The vhost backend loses what the driver does not take.
backend_lost :
    (backend_run (record { sent = []; lost = [] }) ((1 ∷ 2 ∷ 3 ∷ [], 2) ∷ [])).lost ≡ 3 ∷ []
unfolding backend_run backend_round
backend_lost = refl
