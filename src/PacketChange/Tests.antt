-- ===== src/PacketChange/Tests.antt =====
-- A packet of two bytes with room for the header, and one without.
use dpdk_starter.Base.{◌≡◌, [], ◌∷◌}
use dpdk_starter.PacketChange.{operations}
use dpdk_starter.PacketChange.Rooms.{Buf, buffers}
use dpdk_starter.PacketChange.Result.{look, expected, operations_result}

abbrev packet : Buf
packet = record { bytes = 1 ∷ 2 ∷ []; head = 128; tail = 100 }

operations_result_example : look buffers (operations buffers packet) ≡ expected buffers packet
operations_result_example = operations_result buffers packet
