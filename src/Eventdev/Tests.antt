-- ===== src/Eventdev/Tests.antt =====
-- The ten events on a device for 4096 events, and two rounds of the worker on one for two.
use dpdk_starter.Base.{ℕ, ◌≡◌, [], ◌∷◌, length, ◌==◌, if◌then◌else◌, arith}
use dpdk_starter.Packet.{Mbuf}
use dpdk_starter.Eventdev.{EventApi}
use dpdk_starter.Eventdev.Listed.{device_of, device_of-IsRoomy}
use dpdk_starter.Eventdev.Parsing.{Worker, run, occurs, event_worker_conserves}

abbrev large : EventApi
large = device_of 4096

abbrev small : EventApi
small = device_of 2

-- Packets of EtherType 0x0800.
abbrev frame : ℕ → Mbuf
frame m = record { data_len = 64; byte = λ i. if i == 12 then 8 else 0 }

abbrev s₀ : Worker small frame
s₀ = record {
  device =
      record { queue_id = 0; flow_id = 0; value = 7 }
      ∷ record { queue_id = 0; flow_id = 1; value = 8 }
      ∷ [];
  lines = [];
}

event_worker_conserves_example :
    (length (run small frame 2 s₀).device ≡ 2) × (occurs 7 (run small frame 2 s₀).device ≡ 1)
event_worker_conserves_example =
    event_worker_conserves small frame 2 (device_of-IsRoomy 2) 2 s₀ 7 (omega arith)
