-- ===== src/Rss/Setup.antt =====
-- The ports of both programs before the lcores are launched.
use dpdk_starter.Base.{
  ℕ, zero, suc, ◌+◌, ◌≤◌, ◌≡◌, inl, inr, refl, true, ◌&&◌, ◌||◌, List, [], ◌∷◌, ltb, leb, arith,
}
use dpdk_starter.Startup.{
  Call, Env, running, checked, Boot-cases, eal_init, count_ports, pool_create, dev_info, dev_start,
  dev_configure, rx_queue_setup,
}
use dpdk_starter.Startup.Device.{device, is_up, has, covers, unconfigured}
use dpdk_starter.Rss.{choose_queues, setup_queues, af_packet_start, rss_start}

-- The queues that the loop puts in front of those that are set up.
pushed : ℕ → ℕ → List ℕ → List ℕ
pushed zero q queues = queues
pushed (suc n) q queues = pushed n (suc q) (q ∷ queues)

has-pushed :
    (n q : ℕ) (queues : List ℕ) (x : ℕ)
    → has (pushed n q queues) x ≡ (has queues x || (leb q x && ltb x (q + n)))
unfolding pushed
has-pushed zero q queues x = ground arith
has-pushed (suc n) q queues x = ground (arith, has-pushed n (suc q) (q ∷ queues) x)

covers-pushed : (n total : ℕ) → n ≤ total → covers n (pushed total 0 []) ≡ true
covers-pushed zero total h = refl
covers-pushed (suc n) total h = ground (arith, has-pushed total 0 [] n, covers-pushed n total)

device-setup_queues :
    (env : Env) (n q : ℕ) (log after : List Call)
    → setup_queues env n q log ≡ running after
    → device env 0 after
      ≡ record (device env 0 log) { rx_set = pushed n q (device env 0 log).rx_set }
unfolding setup_queues pushed
device-setup_queues env zero q log after h = ground arith
device-setup_queues env (suc n) q log after h =
    ground (arith, device-setup_queues env n (suc q) (rx_queue_setup 0 q ∷ log) after)

up_after :
    (env : Env) (n : ℕ) (before log after : List Call)
    → device env 0 before ≡ record unconfigured { nb_rx = n }
    → setup_queues env n 0 before ≡ running log
    → checked env (dev_start 0) log ≡ running after
    → is_up env 0 n 0 after ≡ true
unfolding is_up
up_after env n before log after d s h =
    ground (arith, d, device-setup_queues env n 0 before log s, covers-pushed n n (omega arith))

-- When af_packet_rss launches its lcores, port 0 is started with the number of receive queues that was
-- chosen, all of them set up, and no transmit queue.
pub af_packet_start-is_up :
    (env : Env) (lcore_count max_rx : ℕ) (log : List Call)
    → af_packet_start env lcore_count max_rx [] ≡ running log
    → is_up env 0 (choose_queues lcore_count max_rx) 0 log ≡ true
unfolding af_packet_start
af_packet_start-is_up env lcore_count max_rx log h =
    let used = choose_queues lcore_count max_rx in
    let calls : List Call =
      dev_configure 0 used 0 ∷ dev_info 0 ∷ pool_create ∷ count_ports ∷ eal_init ∷ [] in
    elim (Boot-cases (setup_queues env used 0 calls)) [
      | inl (l, e) ↦ ground (arith, e)
      | inr (l, e) ↦ up_after env used calls l log (ground (arith, e)) e (ground (arith, e))
    ]

-- When rss_dpdk/main.c launches its lcores, port 0 is started with four receive queues, all of them set
-- up, and no transmit queue.
pub rss_start-is_up :
    (env : Env) (log : List Call) → rss_start env [] ≡ running log → is_up env 0 4 0 log ≡ true
unfolding rss_start setup_queues is_up
rss_start-is_up env log h = ground arith
