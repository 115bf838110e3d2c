-- ===== src/Startup/SmallPrograms.antt =====
-- The starts of the programs with one idea each: hello_world, hashing/sample, reordering/sample,
-- mempool_membuff/simple.c, practice/ring.c, eventdev/practice, telementry/sample,
-- telementry/advanced_stats, l2_forwarding, inter_process_comm/sample_rte_mp and
-- inter_process_comm/Multi_Process_Messaging.
use dpdk_starter.Base.{List}
use dpdk_starter.Startup.{
  Call, Env, Boot, checked, ignored, ◌▷◌, eal_init, pool_create, mbuf_alloc, mbuf_append,
  ring_create, hash_create, reorder_create, event_configure, event_queue, event_port, event_link,
  event_start, telemetry_register, mp_register, is_primary,
}

-- hello_world/sample.c
unfoldable pub hello_world_start : Env → List Call → Boot
hello_world_start env = checked env eal_init

-- hashing/sample/main.c
unfoldable pub hash_sample_start : Env → List Call → Boot
hash_sample_start env = checked env eal_init ▷ checked env hash_create

-- reordering/sample/main.c
unfoldable pub reorder_sample_start : Env → List Call → Boot
reorder_sample_start env =
    checked env eal_init ▷ checked env pool_create ▷ checked env reorder_create

-- mempool_membuff/simple.c, up to the `memcpy`
unfoldable pub simple_mbuf_start : Env → List Call → Boot
simple_mbuf_start env =
    checked env eal_init
    ▷ checked env pool_create
    ▷ checked env mbuf_alloc
    ▷ checked env mbuf_append

-- practice/ring.c
unfoldable pub practice_ring_start : Env → List Call → Boot
practice_ring_start env = checked env eal_init ▷ checked env (ring_create 0)

-- eventdev/practice/main.c
unfoldable pub one_worker_start : Env → List Call → Boot
one_worker_start env =
    checked env eal_init
    ▷ checked env event_configure
    ▷ checked env (event_queue 0)
    ▷ checked env (event_port 0)
    ▷ checked env (event_link 0)
    ▷ checked env event_start

-- telementry/sample/main.c: a failed registration is printed.
unfoldable pub telemetry_start : Env → List Call → Boot
telemetry_start env = checked env eal_init ▷ ignored env telemetry_register

-- inter_process_comm/sample_rte_mp/primary.c
unfoldable pub mp_primary_start : Env → List Call → Boot
mp_primary_start env = checked env eal_init ▷ checked env mp_register

-- inter_process_comm/Multi_Process_Messaging/primary.c
unfoldable pub messaging_start : Env → List Call → Boot
messaging_start env =
    ignored env eal_init
    ▷ checked env is_primary
    ▷ checked env (ring_create 0)
    ▷ ignored env mp_register

-- l2_forwarding/main.c
abbrev pub create_mac_table : Env → List Call → Boot
create_mac_table env = checked env hash_create

unfoldable pub l2_forwarding_start : Env → List Call → Boot
l2_forwarding_start env = checked env eal_init ▷ create_mac_table env

-- telementry/advanced_stats/main.c: both commands are registered behind the launch of the workers.
unfoldable pub advanced_stats_start : Env → List Call → Boot
advanced_stats_start env =
    checked env eal_init ▷ ignored env telemetry_register ▷ ignored env telemetry_register
