-- ===== src/PortLoops.antt =====
-- Programs with one loop on a port: ports/begin/dpdk_tun_echo.c and ports/packet_parsing/rx_tx.c send what
-- they receive, tranmit_packet/swap_addr/main.c does so with the MAC addresses swapped, and
-- rxtx_callbacks/sample/simple.c counts in a callback. A round has what the driver returns.
pub mod Echo
pub mod Swap
pub mod Callback
pub mod Vhost
mod Tests
