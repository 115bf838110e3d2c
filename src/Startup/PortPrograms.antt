-- ===== src/Startup/PortPrograms.antt =====
-- The starts of the programs that echo or print what a port receives: ports/port_mempool and
-- ports/packet_parsing, which have a file for each part, ports/begin/sample.c, and the two ends of
-- inter_process_comm/virtu_vhost_ipc.
use dpdk_starter.Base.{ℕ, List}
use dpdk_starter.Startup.{
  Call, Env, Boot, checked, ignored, ◌▷◌, eal_init, count_ports, pool_create, dev_info, dev_start,
  dev_configure, rx_queue_setup, tx_queue_setup, vhost_register, vhost_start,
}

-- ports/port_mempool: eal_init.c, mempool.c, port.c and main.c
abbrev pub init_eal : Env → List Call → Boot
init_eal env = checked env eal_init

abbrev pub create_mempool : Env → List Call → Boot
create_mempool env = checked env pool_create

abbrev pub init_port : Env → ℕ → List Call → Boot
init_port env port =
    checked env (dev_configure port 1 1)
    ▷ checked env (rx_queue_setup port 0)
    ▷ checked env (tx_queue_setup port 0)
    ▷ checked env (dev_start port)

unfoldable pub port_mempool_start : Env → List Call → Boot
port_mempool_start env =
    init_eal env ▷ checked env count_ports ▷ create_mempool env ▷ init_port env 0

-- ports/packet_parsing: the same files, where port.c also reads the name of the driver.
abbrev pub parsing_init_eal : Env → List Call → Boot
parsing_init_eal env = checked env eal_init

abbrev pub parsing_create_mempool : Env → List Call → Boot
parsing_create_mempool env = checked env pool_create

abbrev pub parsing_init_port : Env → ℕ → List Call → Boot
parsing_init_port env port =
    checked env (dev_configure port 1 1)
    ▷ checked env (rx_queue_setup port 0)
    ▷ checked env (tx_queue_setup port 0)
    ▷ checked env (dev_start port)
    ▷ ignored env (dev_info 0)

unfoldable pub packet_parsing_start : Env → List Call → Boot
packet_parsing_start env =
    parsing_init_eal env
    ▷ checked env count_ports
    ▷ parsing_create_mempool env
    ▷ parsing_init_port env 0

-- ports/begin/sample.c: the number of ports is printed.
unfoldable pub count_ports_start : Env → List Call → Boot
count_ports_start env = ignored env eal_init ▷ ignored env count_ports

-- inter_process_comm/virtu_vhost_ipc/backend.c
unfoldable pub backend_start : Env → List Call → Boot
backend_start env =
    ignored env eal_init
    ▷ checked env vhost_register
    ▷ checked env vhost_start
    ▷ checked env pool_create
    ▷ checked env (dev_configure 0 1 1)
    ▷ checked env (rx_queue_setup 0 0)
    ▷ checked env (tx_queue_setup 0 0)
    ▷ checked env (dev_start 0)

-- inter_process_comm/virtu_vhost_ipc/frontend.c
unfoldable pub frontend_start : Env → List Call → Boot
frontend_start env =
    checked env eal_init
    ▷ checked env pool_create
    ▷ ignored env (dev_configure 0 1 1)
    ▷ ignored env (rx_queue_setup 0 0)
    ▷ ignored env (tx_queue_setup 0 0)
    ▷ ignored env (dev_start 0)
