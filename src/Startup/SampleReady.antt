-- ===== src/Startup/SampleReady.antt =====
-- Which calls the samples need.
use dpdk_starter.Base.{ℕ, ◌≡◌, Bool, true, false, ◌&&◌, List, [], ◌∷◌, leb, arith}
use dpdk_starter.Startup.{
  Call, Env, Boot, eal_init, count_ports, acl_create, acl_add_rules, acl_build, pool_create,
  graph_create, graph_lookup, ring_create, lpm_create, dev_info, dev_start, dev_configure,
  rx_queue_setup, tx_queue_setup, hash_create, reorder_create, event_configure, event_start,
  rx_adapter, event_queue, event_port, event_link, vhost_register, vhost_start, mp_register,
  is_primary, mbuf_alloc, mbuf_append,
}
use dpdk_starter.Startup.Device.{is_up}
use dpdk_starter.Startup.Ready.{goes_on, log_of}
use dpdk_starter.Startup.Samples.{
  nic_stats_start, reorder_rx_start, reorder_start, hello_start, node_sched_start, workers_start,
  two_start_start, context_start, arc_start, simple_ring_start, through_start, full_duplex_start,
  single_ring_start, event_practice_start, event_parsing_start, mac_table_start, lpm_table_start,
  echo_start, callback_start, project_start, event_primary_start,
}
use dpdk_starter.Startup.AclPrograms.{multi_rule_start}
use dpdk_starter.Startup.PortPrograms.{
  port_mempool_start, packet_parsing_start, count_ports_start, backend_start, frontend_start,
}
use dpdk_starter.Startup.SmallPrograms.{
  hello_world_start, hash_sample_start, reorder_sample_start, simple_mbuf_start,
  practice_ring_start, one_worker_start, telemetry_start, mp_primary_start, messaging_start,
  l2_forwarding_start, advanced_stats_start,
}

pub data Sample : Type 0 where
  nic_stats reorder_rx reorder hello node_sched workers two_start context arc : Sample
  simple_ring through full_duplex single_ring event_practice event_parsing : Sample
  mac_table lpm_table echo callback multi_rule project event_primary : Sample
  port_mempool packet_parsing count backend frontend hello_world hash_sample : Sample
  reorder_sample simple_mbuf practice_ring one_worker telemetry mp_primary messaging : Sample
  l2_forwarding advanced_stats : Sample

abbrev pub sample_start : Sample → Env → ℕ → List Call → Boot
sample_start nic_stats env argc = nic_stats_start env
sample_start reorder_rx env argc = reorder_rx_start env
sample_start reorder env argc = reorder_start env
sample_start hello env argc = hello_start env
sample_start node_sched env argc = node_sched_start env
sample_start workers env argc = workers_start env
sample_start two_start env argc = two_start_start env
sample_start context env argc = context_start env argc
sample_start arc env argc = arc_start env argc
sample_start simple_ring env argc = simple_ring_start env
sample_start through env argc = through_start env
sample_start full_duplex env argc = full_duplex_start env
sample_start single_ring env argc = single_ring_start env
sample_start event_practice env argc = event_practice_start env
sample_start event_parsing env argc = event_parsing_start env
sample_start mac_table env argc = mac_table_start env
sample_start lpm_table env argc = lpm_table_start env
sample_start echo env argc = echo_start env
sample_start callback env argc = callback_start env
sample_start multi_rule env argc = multi_rule_start env
sample_start project env argc = project_start env
sample_start event_primary env argc = event_primary_start env
sample_start port_mempool env argc = port_mempool_start env
sample_start packet_parsing env argc = packet_parsing_start env
sample_start count env argc = count_ports_start env
sample_start backend env argc = backend_start env
sample_start frontend env argc = frontend_start env
sample_start hello_world env argc = hello_world_start env
sample_start hash_sample env argc = hash_sample_start env
sample_start reorder_sample env argc = reorder_sample_start env
sample_start simple_mbuf env argc = simple_mbuf_start env
sample_start practice_ring env argc = practice_ring_start env
sample_start one_worker env argc = one_worker_start env
sample_start telemetry env argc = telemetry_start env
sample_start mp_primary env argc = mp_primary_start env
sample_start messaging env argc = messaging_start env
sample_start l2_forwarding env argc = l2_forwarding_start env
sample_start advanced_stats env argc = advanced_stats_start env

-- The calls that a program needs, and how many arguments.
abbrev pub port_calls : List Call → List Call
port_calls rest = dev_start 0 ∷ rx_queue_setup 0 0 ∷ pool_create ∷ rest

abbrev pub required : Sample → List Call
required nic_stats =
    port_calls
      (dev_info 0 ∷ dev_configure 0 1 1 ∷ tx_queue_setup 0 0 ∷ ring_create 0 ∷ ring_create 1 ∷ [])
required reorder_rx = port_calls (eal_init ∷ dev_configure 0 1 0 ∷ reorder_create ∷ [])
required reorder = port_calls (eal_init ∷ dev_configure 0 1 1 ∷ reorder_create ∷ [])
required hello = eal_init ∷ graph_create ∷ graph_lookup ∷ []
required node_sched = eal_init ∷ graph_create ∷ graph_lookup ∷ []
required workers = eal_init ∷ graph_create ∷ graph_lookup ∷ []
required two_start = eal_init ∷ pool_create ∷ graph_create ∷ graph_lookup ∷ []
required context = eal_init ∷ graph_create ∷ graph_lookup ∷ []
required arc = eal_init ∷ graph_create ∷ graph_lookup ∷ []
required simple_ring = eal_init ∷ ring_create 0 ∷ []
required through = eal_init ∷ ring_create 0 ∷ []
required full_duplex = eal_init ∷ ring_create 0 ∷ ring_create 1 ∷ []
required single_ring = ring_create 0 ∷ []
required event_practice =
    eal_init
    ∷ event_configure
    ∷ event_queue 0
    ∷ event_port 0
    ∷ event_port 1
    ∷ event_port 2
    ∷ event_start
    ∷ []
required event_parsing = eal_init ∷ pool_create ∷ rx_adapter ∷ []
required mac_table = eal_init ∷ hash_create ∷ []
required lpm_table = eal_init ∷ lpm_create ∷ []
required echo = eal_init ∷ count_ports ∷ pool_create ∷ []
required callback = eal_init ∷ []
required multi_rule = acl_create ∷ acl_add_rules ∷ acl_build ∷ []
required project =
    eal_init ∷ event_configure ∷ event_queue 0 ∷ event_port 0 ∷ event_port 1 ∷ event_start ∷ []
required event_primary = eal_init ∷ pool_create ∷ []
required port_mempool =
    port_calls (eal_init ∷ count_ports ∷ dev_configure 0 1 1 ∷ tx_queue_setup 0 0 ∷ [])
required packet_parsing =
    port_calls (eal_init ∷ count_ports ∷ dev_configure 0 1 1 ∷ tx_queue_setup 0 0 ∷ [])
required count = []
required backend =
    port_calls (vhost_register ∷ vhost_start ∷ dev_configure 0 1 1 ∷ tx_queue_setup 0 0 ∷ [])
required frontend = eal_init ∷ pool_create ∷ []
required hello_world = eal_init ∷ []
required hash_sample = eal_init ∷ hash_create ∷ []
required reorder_sample = eal_init ∷ pool_create ∷ reorder_create ∷ []
required simple_mbuf = eal_init ∷ pool_create ∷ mbuf_alloc ∷ mbuf_append ∷ []
required practice_ring = eal_init ∷ ring_create 0 ∷ []
required one_worker =
    eal_init ∷ event_configure ∷ event_queue 0 ∷ event_port 0 ∷ event_link 0 ∷ event_start ∷ []
required telemetry = eal_init ∷ []
required mp_primary = eal_init ∷ mp_register ∷ []
required messaging = is_primary ∷ ring_create 0 ∷ []
required l2_forwarding = eal_init ∷ hash_create ∷ []
required advanced_stats = eal_init ∷ []

abbrev pub min_argc : Sample → ℕ
min_argc context = 2
min_argc arc = 3
min_argc p = 0

abbrev pub all_well : Env → List Call → Bool
all_well env [] = true
all_well env (c ∷ calls) = env c && all_well env calls

-- Each of these programs goes on to its loop, or to its end without an error, exactly if it has its
-- arguments and every call that it needs succeeds; whether the other calls that it makes succeed makes
-- no difference: these include the start of the EAL for nic_stats, the single ring, the several rules, the
-- vhost backend and Multi_Process_Messaging, and the whole port for eventdev/parsing_event, ports/begin,
-- rxtx_callbacks and the vhost frontend.
pub sample_start_iff :
    (p : Sample) (env : Env) (argc : ℕ)
    → goes_on (sample_start p env argc []) ≡ (leb (min_argc p) argc && all_well env (required p))
unfolding nic_stats_start reorder_rx_start reorder_start hello_start node_sched_start workers_start
    two_start_start context_start arc_start simple_ring_start through_start full_duplex_start
    single_ring_start event_practice_start event_parsing_start mac_table_start lpm_table_start
    echo_start callback_start multi_rule_start project_start event_primary_start port_mempool_start
    packet_parsing_start count_ports_start backend_start frontend_start hello_world_start
    hash_sample_start reorder_sample_start simple_mbuf_start practice_ring_start one_worker_start
    telemetry_start mp_primary_start messaging_start l2_forwarding_start advanced_stats_start
sample_start_iff nic_stats env argc = ground arith
sample_start_iff reorder_rx env argc = ground arith
sample_start_iff reorder env argc = ground arith
sample_start_iff hello env argc = ground arith
sample_start_iff node_sched env argc = ground arith
sample_start_iff workers env argc = ground arith
sample_start_iff two_start env argc = ground arith
sample_start_iff context env argc = ground arith
sample_start_iff arc env argc = ground arith
sample_start_iff simple_ring env argc = ground arith
sample_start_iff through env argc = ground arith
sample_start_iff full_duplex env argc = ground arith
sample_start_iff single_ring env argc = ground arith
sample_start_iff event_practice env argc = ground arith
sample_start_iff event_parsing env argc = ground arith
sample_start_iff mac_table env argc = ground arith
sample_start_iff lpm_table env argc = ground arith
sample_start_iff echo env argc = ground arith
sample_start_iff callback env argc = ground arith
sample_start_iff multi_rule env argc = ground arith
sample_start_iff project env argc = ground arith
sample_start_iff event_primary env argc = ground arith
sample_start_iff port_mempool env argc = ground arith
sample_start_iff packet_parsing env argc = ground arith
sample_start_iff count env argc = ground arith
sample_start_iff backend env argc = ground arith
sample_start_iff frontend env argc = ground arith
sample_start_iff hello_world env argc = ground arith
sample_start_iff hash_sample env argc = ground arith
sample_start_iff reorder_sample env argc = ground arith
sample_start_iff simple_mbuf env argc = ground arith
sample_start_iff practice_ring env argc = ground arith
sample_start_iff one_worker env argc = ground arith
sample_start_iff telemetry env argc = ground arith
sample_start_iff mp_primary env argc = ground arith
sample_start_iff messaging env argc = ground arith
sample_start_iff l2_forwarding env argc = ground arith
sample_start_iff advanced_stats env argc = ground arith

-- By the documentation of rte_ethdev, the port of reordering/rx_burst/main.c is never up with the
-- transmit queue that the program asks for, whatever calls succeed, since it does not set it up.
pub reorder_start-is_up : (env : Env) → is_up env 0 1 1 (log_of (reorder_start env [])) ≡ false
unfolding reorder_start is_up
reorder_start-is_up env = ground arith
