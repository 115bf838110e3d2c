-- ===== src/L2Forward/Flood.antt =====
-- `flood_packet`: every port but the one that the packet came in on.
use dpdk_starter.Base.{
  ℕ, zero, suc, ◌+◌, ◌≡◌, count, if◌then◌else◌, ltb, leb, ◌==◌, ◌&&◌, not, arith,
}
use dpdk_starter.L2Forward.{flood_from, flood_packet, max_ports}

flood_from-count :
    (n p in_port q : ℕ)
    → count q (flood_from n p in_port)
      ≡ (if leb p q && ltb q (p + n) && not (q == in_port) then 1 else 0)
unfolding flood_from
flood_from-count zero p in_port q = ground arith
flood_from-count (suc n) p in_port q = ground (arith, flood_from-count n (p + 1) in_port q)

-- A flood names each of the four ports once, except the port that the packet came in on, and no
-- other port.
pub flood_packet-count :
    (in_port q : ℕ)
    → count q (flood_packet in_port) ≡ (if ltb q max_ports && not (q == in_port) then 1 else 0)
unfolding flood_packet
flood_packet-count in_port q = ground (arith, flood_from-count max_ports 0 in_port q)
