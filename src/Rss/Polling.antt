-- ===== src/Rss/Polling.antt =====
-- Which queues are polled, and by how many lcores.
use dpdk_starter.Base.{
  ℕ, suc, ◌+◌, ◌≤◌, ◌<◌, ◌≡◌, ◌&&◌, List, [], ◌∷◌, length, ltb, leb, ◌==◌, if◌then◌else◌, arith,
}
use dpdk_starter.Rss.{Poll, choose_queues, launch_from, launch, launch_fixed}

-- How many lcores poll a queue.
abbrev pub pollers : ℕ → List Poll → ℕ
pollers q [] = 0
pollers q (p ∷ ps) = if p.queue == q then suc (pollers q ps) else pollers q ps

pollers-launch_from :
    (used main_lcore : ℕ) (workers : List ℕ) (start q : ℕ)
    → pollers q (launch_from used main_lcore workers start)
      ≡ (if leb start q && ltb q used && leb q (start + length workers) then 1 else 0)
unfolding launch_from
pollers-launch_from used main_lcore [] start q = ground arith
pollers-launch_from used main_lcore (w ∷ ws) start q =
    ground (arith, pollers-launch_from used main_lcore ws (suc start) q)

-- The number of queues is at least 1, at most the device's maximum unless that is 0, and at most the
-- number of worker lcores unless there is none, for every count of lcores up to 65535.
pub choose_queues_bounds :
    (workers max_rx : ℕ)
    → workers < 65535
    → (1 ≤ choose_queues (suc workers) max_rx)
      × (1 ≤ max_rx → choose_queues (suc workers) max_rx ≤ max_rx)
      × (1 ≤ workers → choose_queues (suc workers) max_rx ≤ workers)
      × (workers ≡ 0 → choose_queues (suc workers) max_rx ≡ 1)
unfolding choose_queues
choose_queues_bounds workers max_rx h = ground arith

-- In af_packet_rss every queue that the port is configured with is polled by exactly one lcore, and no
-- other queue is polled, whatever the device's maximum and the worker lcores are, with at most 65534
-- workers.
pub pollers-launch :
    (main_lcore max_rx q : ℕ) (workers : List ℕ)
    → length workers < 65535
    → let used = choose_queues (suc (length workers)) max_rx in
      pollers q (launch used main_lcore workers) ≡ (if ltb q used then 1 else 0)
unfolding launch
pollers-launch main_lcore max_rx q workers h =
    let used = choose_queues (suc (length workers)) max_rx in
    ground (
      arith,
      pollers-launch_from used main_lcore workers 0 q,
      choose_queues_bounds (length workers) max_rx h,
    )

-- In rss_dpdk/main.c a queue is polled, and then by one lcore, exactly if it is one of the four and its
-- number is at most the number of workers: with w workers, the queues from w + 1 on are configured and
-- not polled, since the main lcore polls one queue only.
pub pollers-launch_fixed :
    (main_lcore q : ℕ) (workers : List ℕ)
    → pollers q (launch_fixed main_lcore workers)
      ≡ (if ltb q 4 && leb q (length workers) then 1 else 0)
unfolding launch_fixed
pollers-launch_fixed main_lcore q workers =
    ground (arith, pollers-launch_from 4 main_lcore workers 0 q)
