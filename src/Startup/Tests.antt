-- ===== src/Startup/Tests.antt =====
-- The starts where every call succeeds, and where the port does not start.
use dpdk_starter.Base.{◌≡◌, refl, true, false, List, [], ◌∷◌}
use dpdk_starter.Startup.{
  Call, Env, exited, running, eal_init, pool_create, dev_start, dev_configure, rx_queue_setup,
  tx_queue_setup, promiscuous_enable, mbuf_alloc, dev_info, acl_build, acl_add_rules, acl_create,
}
use dpdk_starter.Startup.Device.{is_up}
use dpdk_starter.Startup.Programs.{transmit_start}
use dpdk_starter.Startup.AclPrograms.{l2fwd_start, start_ports, start_port}
use dpdk_starter.Startup.Ready.{transmit, start-is_up}

abbrev every_call : Env
every_call c = true

abbrev no_start : Env
no_start (dev_start p) = false
no_start c = true

abbrev transmit_log : List Call
transmit_log =
    mbuf_alloc
    ∷ dev_info 0
    ∷ dev_start 0
    ∷ tx_queue_setup 0 0
    ∷ rx_queue_setup 0 0
    ∷ dev_configure 0 1 1
    ∷ pool_create
    ∷ eal_init
    ∷ []

transmits : transmit_start every_call [] ≡ running transmit_log
unfolding transmit_start
transmits = refl

start-is_up_example : is_up every_call 0 1 1 transmit_log ≡ true
start-is_up_example = start-is_up transmit every_call transmit_log transmits

abbrev exit_log : List Call
exit_log =
    dev_start 0
    ∷ tx_queue_setup 0 0
    ∷ rx_queue_setup 0 0
    ∷ dev_configure 0 1 1
    ∷ pool_create
    ∷ eal_init
    ∷ []

exits : transmit_start no_start [] ≡ exited exit_log
unfolding transmit_start
exits = refl

abbrev l2fwd_log : List Call
l2fwd_log =
    promiscuous_enable 1
    ∷ dev_start 1
    ∷ tx_queue_setup 1 0
    ∷ rx_queue_setup 1 0
    ∷ dev_configure 1 1 1
    ∷ pool_create
    ∷ acl_build
    ∷ acl_add_rules
    ∷ acl_create
    ∷ eal_init
    ∷ []

l2fwd_starts : l2fwd_start every_call 2 (0 ∷ 1 ∷ []) [] ≡ running l2fwd_log
unfolding l2fwd_start start_ports start_port
l2fwd_starts = refl
