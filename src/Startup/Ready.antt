-- ===== src/Startup/Ready.antt =====
-- What the programs have reached when they go on to their loops.
use dpdk_starter.Base.{ℕ, ◌≡◌, Bool, true, false, not, ◌&&◌, ◌||◌, List, [], ◌∷◌, arith}
use dpdk_starter.Startup.{
  Call, Env, Boot, exited, running, eal_init, count_ports, pool_create, graph_create, graph_lookup,
  ring_create, dev_start, dev_configure, rx_queue_setup, tx_queue_setup,
}
use dpdk_starter.Startup.Device.{is_up}
use dpdk_starter.Startup.Programs.{
  segregation_start, threaded_start, transmit_start, seqno_start, lpm_start, meter_start, nat_start,
  pipeline_start, swap_start, rx_drop_start, packet_change_start,
}
use dpdk_starter.Startup.Samples.{nic_stats_start, reorder_rx_start, echo_start}
use dpdk_starter.Startup.PortPrograms.{
  port_mempool_start, packet_parsing_start, backend_start, frontend_start,
}
use dpdk_starter.Startup.AclPrograms.{tcp_source_start, ssdp_start}

-- The programs that check what they do with the port.
pub data Careful : Type 0 where
  segregation threaded transmit seqno lpm meter tcp_source ssdp packet_change nic_stats reorder_rx
        port_mempool packet_parsing backend :
      Careful

abbrev pub start : Careful → Env → List Call → Boot
start segregation = segregation_start
start threaded = threaded_start
start transmit = transmit_start
start seqno = seqno_start
start lpm = lpm_start
start meter = meter_start
start tcp_source = tcp_source_start
start ssdp = ssdp_start
start packet_change = packet_change_start
start nic_stats = nic_stats_start
start reorder_rx = reorder_rx_start
start port_mempool = port_mempool_start
start packet_parsing = packet_parsing_start
start backend = backend_start

-- The number of transmit queues that the program asks for.
abbrev pub nb_tx : Careful → ℕ
nb_tx seqno = 0
nb_tx reorder_rx = 0
nb_tx p = 1

-- Whatever calls succeed, a program of this kind that goes on to its loop has port 0 started with one
-- receive queue and the transmit queues that it asked for, all of them set up.
pub start-is_up :
    (p : Careful) (env : Env) (log : List Call)
    → start p env [] ≡ running log
    → is_up env 0 1 (nb_tx p) log ≡ true
unfolding segregation_start threaded_start transmit_start seqno_start lpm_start meter_start
    tcp_source_start ssdp_start packet_change_start nic_stats_start reorder_rx_start
    port_mempool_start packet_parsing_start backend_start is_up
start-is_up segregation env log h = ground arith
start-is_up threaded env log h = ground arith
start-is_up transmit env log h = ground arith
start-is_up seqno env log h = ground arith
start-is_up lpm env log h = ground arith
start-is_up meter env log h = ground arith
start-is_up tcp_source env log h = ground arith
start-is_up ssdp env log h = ground arith
start-is_up packet_change env log h = ground arith
start-is_up nic_stats env log h = ground arith
start-is_up reorder_rx env log h = ground arith
start-is_up port_mempool env log h = ground arith
start-is_up packet_parsing env log h = ground arith
start-is_up backend env log h = ground arith

-- Some call of the log has failed.
abbrev pub any_failed : Env → List Call → Bool
any_failed env [] = false
any_failed env (c ∷ log) = not (env c) || any_failed env log

-- A program of this kind ends before its loop only if a call that it made has failed.
pub start-exited :
    (p : Careful) (env : Env) (log : List Call)
    → start p env [] ≡ exited log
    → any_failed env log ≡ true
unfolding segregation_start threaded_start transmit_start seqno_start lpm_start meter_start
    tcp_source_start ssdp_start packet_change_start nic_stats_start reorder_rx_start
    port_mempool_start packet_parsing_start backend_start
start-exited segregation env log h = ground arith
start-exited threaded env log h = ground arith
start-exited transmit env log h = ground arith
start-exited seqno env log h = ground arith
start-exited lpm env log h = ground arith
start-exited meter env log h = ground arith
start-exited tcp_source env log h = ground arith
start-exited ssdp env log h = ground arith
start-exited packet_change env log h = ground arith
start-exited nic_stats env log h = ground arith
start-exited reorder_rx env log h = ground arith
start-exited port_mempool env log h = ground arith
start-exited packet_parsing env log h = ground arith
start-exited backend env log h = ground arith

abbrev pub goes_on : Boot → Bool
goes_on (exited log) = false
goes_on (running log) = true

abbrev pub log_of : Boot → List Call
log_of (exited log) = log
log_of (running log) = log

-- The threaded pipeline goes on exactly if the calls whose results it looks at succeed: it goes on as
-- well when `rte_eal_init` fails and when the port is not valid.
pub threaded_start_iff :
    (env : Env)
    → goes_on (threaded_start env []) ≡ (
        env (dev_configure 0 1 1)
        && env pool_create
        && env (rx_queue_setup 0 0)
        && env (tx_queue_setup 0 0)
        && env (dev_start 0)
        && env (ring_create 0)
        && env (ring_create 1))
unfolding threaded_start
threaded_start_iff env = ground arith

-- The programs that look at no result of a call on the port.
pub data Careless : Type 0 where
  nat pipeline swap rx_drop echo frontend : Careless

abbrev pub careless_start : Careless → Env → List Call → Boot
careless_start nat = nat_start
careless_start pipeline = pipeline_start
careless_start swap = swap_start
careless_start rx_drop = rx_drop_start
careless_start echo = echo_start
careless_start frontend = frontend_start

-- If the EAL, the count of ports, the pool and the graph (its creation and lookup) are well, each of
-- these programs goes on to its loop although the port does not start, with any numbers of queues.
pub careless_start-is_up :
    (p : Careless) (env : Env) (rx tx : ℕ)
    → env eal_init ≡ true
    → env count_ports ≡ true
    → env pool_create ≡ true
    → env graph_create ≡ true
    → env graph_lookup ≡ true
    → env (dev_start 0) ≡ false
    → (goes_on (careless_start p env []) ≡ true)
      × (is_up env 0 rx tx (log_of (careless_start p env [])) ≡ false)
unfolding nat_start pipeline_start swap_start rx_drop_start echo_start frontend_start is_up
careless_start-is_up nat env rx tx e c p g l d = (ground arith, ground arith)
careless_start-is_up pipeline env rx tx e c p g l d = (ground arith, ground arith)
careless_start-is_up swap env rx tx e c p g l d = (ground arith, ground arith)
careless_start-is_up rx_drop env rx tx e c p g l d = (ground arith, ground arith)
careless_start-is_up echo env rx tx e c p g l d = (ground arith, ground arith)
careless_start-is_up frontend env rx tx e c p g l d = (ground arith, ground arith)
