-- ===== src/Rss/Tests.antt =====
-- Two workers and a device with eight queues, and four fixed queues with one worker.
use dpdk_starter.Base.{◌≡◌, refl, true, List, [], ◌∷◌}
use dpdk_starter.Startup.{
  Call, Env, running, eal_init, count_ports, pool_create, dev_info, dev_start, dev_configure,
  rx_queue_setup,
}
use dpdk_starter.Rss.{choose_queues, setup_queues, af_packet_start}

abbrev all_well : Env
all_well c = true

abbrev two_log : List Call
two_log =
    dev_start 0
    ∷ rx_queue_setup 0 1
    ∷ rx_queue_setup 0 0
    ∷ dev_configure 0 2 0
    ∷ dev_info 0
    ∷ pool_create
    ∷ count_ports
    ∷ eal_init
    ∷ []

two_start : af_packet_start all_well 3 8 [] ≡ running two_log
unfolding af_packet_start setup_queues choose_queues
two_start = refl
