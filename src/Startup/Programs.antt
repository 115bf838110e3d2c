-- ===== src/Startup/Programs.antt =====
-- The starts of control_data_segregation, thread_parsing/threaded_project, tranmit_packet,
-- reordering/dynamic_seqno, longest_prefix_match_lpm/simple, meter_dpdk, NAT, graph and
-- packet_change.
use dpdk_starter.Base.{ℕ, List, ◌∷◌, if◌then◌else◌, ◌||◌, not}
use dpdk_starter.Startup.{
  Call, Env, Boot, exited, running, checked, ignored, ◌▷◌, eal_init, count_ports, pool_create,
  mbuf_alloc, dynfield_register, graph_create, graph_lookup, profile_add, policy_add, meter_create,
  flow_create, lpm_create, ring_create, lpm_add, is_valid_port, dev_info, dev_start,
  promiscuous_enable, dev_configure, rx_queue_setup, tx_queue_setup,
}

-- control_data_segregation/main.c
abbrev pub segregation_init_port : Env → ℕ → List Call → Boot
segregation_init_port env port =
    checked env (dev_configure port 1 1)
    ▷ checked env (rx_queue_setup port 0)
    ▷ checked env (tx_queue_setup port 0)
    ▷ checked env (dev_start port)

-- Both rings are created, then both results are looked at.
abbrev pub two_rings : Env → List Call → Boot
two_rings env log =
    let calls = ring_create 1 ∷ ring_create 0 ∷ log in
    if not (env (ring_create 0)) || not (env (ring_create 1)) then exited calls else running calls

unfoldable pub segregation_start : Env → List Call → Boot
segregation_start env =
    checked env eal_init
    ▷ checked env count_ports
    ▷ checked env pool_create
    ▷ two_rings env
    ▷ segregation_init_port env 0

-- thread_parsing/threaded_project/main.c: `rte_eth_dev_is_valid_port` returns 0 or 1, which is never
-- below 0, and so the check of its result lets every port through.
unfoldable pub threaded_start : Env → List Call → Boot
threaded_start env =
    ignored env eal_init
    ▷ ignored env (is_valid_port 0)
    ▷ ignored env (dev_info 0)
    ▷ checked env (dev_configure 0 1 1)
    ▷ checked env pool_create
    ▷ checked env (rx_queue_setup 0 0)
    ▷ checked env (tx_queue_setup 0 0)
    ▷ checked env (dev_start 0)
    ▷ two_rings env

-- tranmit_packet/packet_creation/simple_tx.c
abbrev pub transmit_init_port : Env → ℕ → List Call → Boot
transmit_init_port env port =
    checked env (dev_configure port 1 1)
    ▷ checked env (rx_queue_setup port 0)
    ▷ checked env (tx_queue_setup port 0)
    ▷ checked env (dev_start port)
    ▷ ignored env (dev_info 0)

unfoldable pub transmit_start : Env → List Call → Boot
transmit_start env =
    checked env eal_init
    ▷ checked env pool_create
    ▷ transmit_init_port env 0
    ▷ checked env mbuf_alloc

-- reordering/dynamic_seqno/main.c: `main` ends when `port_init` returns an error.
abbrev pub register_seqno_dynfield : Env → List Call → Boot
register_seqno_dynfield env = checked env dynfield_register

abbrev pub port_init : Env → ℕ → List Call → Boot
port_init env port =
    checked env (is_valid_port port)
    ▷ checked env (dev_configure port 1 0)
    ▷ checked env (rx_queue_setup port 0)
    ▷ checked env (dev_start port)

unfoldable pub seqno_start : Env → List Call → Boot
seqno_start env =
    checked env eal_init ▷ checked env pool_create ▷ register_seqno_dynfield env ▷ port_init env 0

-- longest_prefix_match_lpm/simple/main.c
abbrev pub init_lpm : Env → List Call → Boot
init_lpm env =
    checked env lpm_create
    ▷ ignored env (lpm_add 24)
    ▷ ignored env (lpm_add 16)
    ▷ ignored env (lpm_add 8)
    ▷ ignored env (lpm_add 4)

abbrev pub lpm_init_port : Env → ℕ → List Call → Boot
lpm_init_port env port =
    checked env (dev_configure port 1 1)
    ▷ checked env (rx_queue_setup port 0)
    ▷ checked env (tx_queue_setup port 0)
    ▷ checked env (dev_start port)
    ▷ ignored env (promiscuous_enable port)

unfoldable pub lpm_start : Env → List Call → Boot
lpm_start env = checked env eal_init ▷ checked env pool_create ▷ init_lpm env ▷ lpm_init_port env 0

-- meter_dpdk/main.c: the port, and then the meter.
abbrev pub meter_port : Env → List Call → Boot
meter_port env =
    checked env eal_init
    ▷ checked env pool_create
    ▷ checked env (dev_configure 0 1 1)
    ▷ checked env (rx_queue_setup 0 0)
    ▷ checked env (tx_queue_setup 0 0)
    ▷ checked env (dev_start 0)

abbrev pub meter_create_all : Env → List Call → Boot
meter_create_all env =
    checked env profile_add
    ▷ checked env policy_add
    ▷ checked env meter_create
    ▷ checked env flow_create

unfoldable pub meter_start : Env → List Call → Boot
meter_start env = meter_port env ▷ meter_create_all env

-- NAT/static_nat/main.c
unfoldable pub nat_start : Env → List Call → Boot
nat_start env =
    checked env eal_init
    ▷ checked env pool_create
    ▷ ignored env (dev_configure 0 1 1)
    ▷ ignored env (rx_queue_setup 0 0)
    ▷ ignored env (tx_queue_setup 0 0)
    ▷ ignored env (dev_start 0)
    ▷ ignored env (promiscuous_enable 0)

-- graph/pipeline/pipeline.c
unfoldable pub pipeline_start : Env → List Call → Boot
pipeline_start env =
    checked env eal_init
    ▷ checked env pool_create
    ▷ ignored env (dev_configure 0 1 1)
    ▷ ignored env (rx_queue_setup 0 0)
    ▷ ignored env (tx_queue_setup 0 0)
    ▷ ignored env (dev_start 0)
    ▷ checked env graph_create

-- tranmit_packet/swap_addr/main.c
unfoldable pub swap_start : Env → List Call → Boot
swap_start env =
    checked env eal_init
    ▷ checked env count_ports
    ▷ checked env pool_create
    ▷ ignored env (dev_configure 0 1 1)
    ▷ ignored env (rx_queue_setup 0 0)
    ▷ ignored env (tx_queue_setup 0 0)
    ▷ ignored env (dev_start 0)

-- graph/rx_drop_sample/sample/main.c
unfoldable pub rx_drop_start : Env → List Call → Boot
rx_drop_start env =
    checked env eal_init
    ▷ checked env pool_create
    ▷ ignored env (dev_configure 0 1 1)
    ▷ ignored env (rx_queue_setup 0 0)
    ▷ ignored env (tx_queue_setup 0 0)
    ▷ ignored env (dev_start 0)
    ▷ checked env graph_create
    ▷ checked env graph_lookup

-- packet_change/main.c
unfoldable pub packet_change_start : Env → List Call → Boot
packet_change_start env =
    checked env eal_init
    ▷ checked env pool_create
    ▷ checked env (dev_configure 0 1 1)
    ▷ checked env (rx_queue_setup 0 0)
    ▷ checked env (tx_queue_setup 0 0)
    ▷ checked env (dev_start 0)
