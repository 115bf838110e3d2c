-- ===== src/Ipc.antt =====
-- inter_process_comm: the programs that pass messages between two processes.
pub mod Memory
pub mod Runs
pub mod Talk
pub mod FullDuplex
pub mod SingleRing
pub mod Ready
pub mod Through
pub mod Payload
mod Tests
mod SingleRingTests
