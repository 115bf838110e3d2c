-- ===== src/Rss.antt =====
-- The choice of receive queues and of the lcores that poll them: rss_dpdk/af_packet_rss/main.c, which
-- chooses the number of queues, and rss_dpdk/main.c, which has four.
pub mod Polling
pub mod Setup
mod Tests
use dpdk_starter.Base.{
  ℕ, zero, suc, ◌+◌, ◌%◌, Bool, List, [], ◌∷◌, ◌++◌, ltb, leb, ◌==◌, if◌then◌else◌,
}
use dpdk_starter.Startup.{
  Call, Env, Boot, running, checked, ignored, and_then, ◌▷◌, eal_init, count_ports, pool_create,
  dev_info, dev_start, dev_configure, rx_queue_setup,
}

-- `rte_lcore_count() - 1` in 16 bits, and the limits of 1.
unfoldable pub choose_queues : ℕ → ℕ → ℕ
choose_queues lcore_count max_rx_queues =
    let lcores : ℕ = (lcore_count + 65535) % 65536 in
    let desired : ℕ = if lcores == 0 then 1 else lcores in
    let used : ℕ = if ltb desired max_rx_queues then desired else max_rx_queues in
    if used == 0 then 1 else used

-- rxmode.mq_mode
pub data MqMode : Type 0 where
  rx_rss rx_none : MqMode

unfoldable pub mq_mode : ℕ → MqMode
mq_mode used_rx_queues = if ltb 1 used_rx_queues then rx_rss else rx_none

-- An lcore that runs `lcore_rx` on a queue; it never ends.
pub record Poll : Type 0 where
  pub lcore : ℕ
  pub queue : ℕ

-- The loop over the worker lcores, and then the main lcore, from queue `q` on.
unfoldable pub launch_from : ℕ → ℕ → List ℕ → ℕ → List Poll
launch_from used main_lcore [] q =
    if ltb q used then record { lcore = main_lcore; queue = q } ∷ [] else []
launch_from used main_lcore (worker ∷ workers) q =
    let rest = launch_from used main_lcore workers (suc q) in
    if leb used q then [] else record { lcore = worker; queue = q } ∷ rest

unfoldable pub launch : ℕ → ℕ → List ℕ → List Poll
unfolding launch_from
launch used main_lcore workers = launch_from used main_lcore workers 0

-- RX_QUEUES of rss_dpdk/main.c, and its loop and main lcore.
abbrev pub rx_queues : ℕ
rx_queues = 4

unfoldable pub launch_fixed : ℕ → List ℕ → List Poll
unfolding launch_from
launch_fixed main_lcore workers = launch_from rx_queues main_lcore workers 0

-- The loop that sets up `count` queues from queue `q` on.
unfoldable pub setup_queues : Env → ℕ → ℕ → List Call → Boot
setup_queues env zero q log = running log
setup_queues env (suc count) q log =
    and_then (checked env (rx_queue_setup 0 q) log) (λ l. setup_queues env count (suc q) l)

unfoldable pub af_packet_start : Env → ℕ → ℕ → List Call → Boot
af_packet_start env lcore_count max_rx_queues =
    let used = choose_queues lcore_count max_rx_queues in
    checked env eal_init
    ▷ checked env count_ports
    ▷ checked env pool_create
    ▷ ignored env (dev_info 0)
    ▷ checked env (dev_configure 0 used 0)
    ▷ setup_queues env used 0
    ▷ checked env (dev_start 0)

unfoldable pub rss_start : Env → List Call → Boot
rss_start env =
    checked env eal_init
    ▷ checked env count_ports
    ▷ checked env pool_create
    ▷ checked env (dev_configure 0 rx_queues 0)
    ▷ setup_queues env rx_queues 0
    ▷ checked env (dev_start 0)
