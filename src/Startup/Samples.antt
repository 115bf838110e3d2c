-- ===== src/Startup/Samples.antt =====
-- The starts of nic_stats/sample, reordering/rx_burst, the programs on rte_graph, the programs of
-- inter_process_comm and rings/sample, eventdev/01project, eventdev/02practice, eventdev/parsing_event,
-- hashing/mac_learning, longest_prefix_match_lpm/ipv4table, ports/begin and rxtx_callbacks/sample. `argc` is what is left of it behind the
-- arguments of the EAL.
use dpdk_starter.Base.{ℕ, List, ltb, if◌then◌else◌}
use dpdk_starter.Startup.{
  Call, Env, Boot, exited, running, checked, ignored, ◌▷◌, eal_init, count_ports, pool_create,
  graph_create, graph_lookup, ring_create, lpm_create, lpm_add, is_valid_port, dev_info, dev_start,
  promiscuous_enable, dev_configure, rx_queue_setup, tx_queue_setup, hash_create, reorder_create,
  event_configure, event_start, rx_adapter, rx_adapter_queue, rx_adapter_start, tx_adapter,
  tx_adapter_queue, tx_adapter_start, event_queue, event_port, event_link,
}
use dpdk_starter.Startup.Programs.{two_rings}

-- `if (argc < n) rte_exit(...)`
abbrev pub arguments : ℕ → ℕ → List Call → Boot
arguments n argc log = if ltb argc n then exited log else running log

-- nic_stats/sample/main.c: `rte_eth_dev_is_valid_port` is never below 0.
unfoldable pub nic_stats_start : Env → List Call → Boot
nic_stats_start env =
    ignored env eal_init
    ▷ ignored env (is_valid_port 0)
    ▷ checked env (dev_info 0)
    ▷ checked env (dev_configure 0 1 1)
    ▷ checked env pool_create
    ▷ checked env (rx_queue_setup 0 0)
    ▷ checked env (tx_queue_setup 0 0)
    ▷ checked env (dev_start 0)
    ▷ two_rings env

-- reordering/rx_burst/main2.c, up to the reorder buffer
abbrev pub reorder_rx_port : Env → ℕ → List Call → Boot
reorder_rx_port env port =
    checked env (dev_configure port 1 0)
    ▷ checked env (rx_queue_setup port 0)
    ▷ checked env (dev_start port)

unfoldable pub reorder_rx_start : Env → List Call → Boot
reorder_rx_start env =
    checked env eal_init
    ▷ checked env pool_create
    ▷ reorder_rx_port env 0
    ▷ checked env reorder_create

-- reordering/rx_burst/main.c: a transmit queue is asked for, and its setup is commented out.
abbrev pub reorder_init_port : Env → ℕ → List Call → Boot
reorder_init_port env port =
    checked env (dev_configure port 1 1)
    ▷ checked env (rx_queue_setup port 0)
    ▷ checked env (dev_start port)

unfoldable pub reorder_start : Env → List Call → Boot
reorder_start env =
    checked env eal_init
    ▷ checked env pool_create
    ▷ reorder_init_port env 0
    ▷ checked env reorder_create

-- graph/sample/main.c
unfoldable pub hello_start : Env → List Call → Boot
hello_start env = checked env eal_init ▷ checked env graph_create ▷ checked env graph_lookup

-- graph/node_sched/main.c
unfoldable pub node_sched_start : Env → List Call → Boot
node_sched_start env = checked env eal_init ▷ checked env graph_create ▷ checked env graph_lookup

-- graph/two_start_with_worker/main.c
unfoldable pub workers_start : Env → List Call → Boot
workers_start env = checked env eal_init ▷ checked env graph_create ▷ checked env graph_lookup

-- graph/two_start_node/main.c
unfoldable pub two_start_start : Env → List Call → Boot
two_start_start env =
    checked env eal_init
    ▷ checked env pool_create
    ▷ checked env graph_create
    ▷ checked env graph_lookup

-- graph_private_context/sample/main.c
unfoldable pub context_start : Env → ℕ → List Call → Boot
context_start env argc =
    checked env eal_init ▷ arguments 2 argc ▷ checked env graph_create ▷ checked env graph_lookup

-- feature_arc/graph_arc/main.c
unfoldable pub arc_start : Env → ℕ → List Call → Boot
arc_start env argc =
    checked env eal_init ▷ arguments 3 argc ▷ checked env graph_create ▷ checked env graph_lookup

-- rings/sample/simple_ring.c, and primary.c of the programs of inter_process_comm
unfoldable pub simple_ring_start : Env → List Call → Boot
simple_ring_start env = checked env eal_init ▷ checked env (ring_create 0)

unfoldable pub through_start : Env → List Call → Boot
through_start env = checked env eal_init ▷ checked env (ring_create 0)

unfoldable pub full_duplex_start : Env → List Call → Boot
full_duplex_start env =
    checked env eal_init ▷ checked env (ring_create 0) ▷ checked env (ring_create 1)

unfoldable pub single_ring_start : Env → List Call → Boot
single_ring_start env = ignored env eal_init ▷ checked env (ring_create 0)

-- eventdev/02practice/main.c
unfoldable pub event_practice_start : Env → List Call → Boot
event_practice_start env =
    checked env eal_init
    ▷ checked env event_configure
    ▷ checked env (event_queue 0)
    ▷ checked env (event_port 0)
    ▷ checked env (event_port 1)
    ▷ checked env (event_port 2)
    ▷ ignored env (event_link 1)
    ▷ ignored env (event_link 2)
    ▷ checked env event_start

-- eventdev/parsing_event/main.c
abbrev pub event_device : Env → List Call → Boot
event_device env =
    ignored env event_configure
    ▷ ignored env (event_queue 0)
    ▷ ignored env (event_queue 1)
    ▷ ignored env (event_port 0)
    ▷ ignored env (event_port 1)
    ▷ ignored env (event_link 0)
    ▷ ignored env event_start

unfoldable pub event_parsing_start : Env → List Call → Boot
event_parsing_start env =
    checked env eal_init
    ▷ checked env pool_create
    ▷ ignored env (dev_configure 0 1 1)
    ▷ ignored env (rx_queue_setup 0 0)
    ▷ ignored env (tx_queue_setup 0 0)
    ▷ ignored env (dev_start 0)
    ▷ ignored env (promiscuous_enable 0)
    ▷ event_device env
    ▷ checked env rx_adapter
    ▷ ignored env rx_adapter_queue
    ▷ ignored env rx_adapter_start
    ▷ ignored env tx_adapter
    ▷ ignored env tx_adapter_queue
    ▷ ignored env tx_adapter_start

-- hashing/mac_learning/main.c
unfoldable pub mac_table_start : Env → List Call → Boot
mac_table_start env = checked env eal_init ▷ checked env hash_create

-- longest_prefix_match_lpm/ipv4table/main.c
unfoldable pub lpm_table_start : Env → List Call → Boot
lpm_table_start env =
    checked env eal_init
    ▷ checked env lpm_create
    ▷ ignored env (lpm_add 8)
    ▷ ignored env (lpm_add 16)
    ▷ ignored env (lpm_add 24)

-- ports/begin/dpdk_tun_echo.c
unfoldable pub echo_start : Env → List Call → Boot
echo_start env =
    checked env eal_init
    ▷ checked env count_ports
    ▷ checked env pool_create
    ▷ ignored env (dev_configure 0 1 1)
    ▷ ignored env (rx_queue_setup 0 0)
    ▷ ignored env (tx_queue_setup 0 0)
    ▷ ignored env (dev_start 0)

-- rxtx_callbacks/sample/simple.c, up to the callback
unfoldable pub callback_start : Env → List Call → Boot
callback_start env =
    checked env eal_init
    ▷ ignored env (dev_configure 0 1 1)
    ▷ ignored env pool_create
    ▷ ignored env (rx_queue_setup 0 0)
    ▷ ignored env (tx_queue_setup 0 0)
    ▷ ignored env (dev_start 0)

-- eventdev/01project/main.c
unfoldable pub project_start : Env → List Call → Boot
project_start env =
    checked env eal_init
    ▷ checked env event_configure
    ▷ checked env (event_queue 0)
    ▷ checked env (event_port 0)
    ▷ checked env (event_port 1)
    ▷ ignored env (event_link 1)
    ▷ checked env event_start

-- inter_process_comm/eventdev/primary.c
unfoldable pub event_primary_start : Env → List Call → Boot
event_primary_start env =
    checked env eal_init
    ▷ checked env pool_create
    ▷ ignored env event_configure
    ▷ ignored env (event_queue 0)
    ▷ ignored env (event_port 0)
    ▷ ignored env (event_port 1)
    ▷ ignored env (event_link 0)
    ▷ ignored env (event_link 1)
    ▷ ignored env event_start
