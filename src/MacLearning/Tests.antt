-- ===== src/MacLearning/Tests.antt =====
-- The addresses as numbers of their six bytes.
use dpdk_starter.Base.{ℕ, ◌+◌, ◌*◌, ◌≡◌, arith}
use dpdk_starter.MacLearning.{mac1}

six_bytes : ◌≡◌ {A = ℕ} mac1 (((((170 * 256 + 187) * 256 + 204) * 256 + 221) * 256 + 238) * 256 + 1)
six_bytes = omega arith
