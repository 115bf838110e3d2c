-- ===== src/Startup.antt =====
-- The starts of the programs: the calls of DPDK that `main` makes before its loop, and what it does
-- with their results. DPDK is not part of the repository, so `env` says which calls succeed.
pub mod Device
pub mod Programs
pub mod AclPrograms
pub mod Ready
pub mod Ports
pub mod Samples
pub mod PortPrograms
pub mod SmallPrograms
pub mod SampleReady
mod Tests
use dpdk_starter.Base.{ℕ, Bool, true, false, ◌≡◌, refl, ◌⊎◌, inl, inr, List, [], ◌∷◌, if◌then◌else◌}

-- The calls, with port and queue where they have one.
pub data Call : Type 0 where
  eal_init count_ports pool_create mbuf_alloc dynfield_register graph_create graph_lookup : Call
  acl_create acl_add_rules acl_build : Call
  profile_add policy_add meter_create flow_create lpm_create : Call
  hash_create reorder_create event_configure event_start rx_adapter rx_adapter_queue
        rx_adapter_start :
      Call
  tx_adapter tx_adapter_queue tx_adapter_start : Call
  vhost_register vhost_start mp_register is_primary telemetry_register mbuf_append : Call
  event_queue event_port event_link : ℕ → Call
  ring_create : ℕ → Call
  lpm_add : ℕ → Call
  is_valid_port dev_info dev_start promiscuous_enable : ℕ → Call
  dev_configure : ℕ → ℕ → ℕ → Call
  rx_queue_setup tx_queue_setup : ℕ → ℕ → Call

-- Which calls succeed.
abbrev pub Env : Type 0
Env = Call → Bool

-- The calls made, the last one first: `main` has ended by `rte_exit` or an error, or it goes on.
pub data Boot : Type 0 where
  exited running : List Call → Boot

-- A call whose failure ends the program.
abbrev pub checked : Env → Call → List Call → Boot
checked env c log = if env c then running (c ∷ log) else exited (c ∷ log)

-- A call whose result is not looked at.
abbrev pub ignored : Env → Call → List Call → Boot
ignored env c log = running (c ∷ log)

pub Boot-cases :
    (b : Boot) → ((log : List Call) × (b ≡ exited log)) ⊎ ((log : List Call) × (b ≡ running log))
Boot-cases (exited log) = inl (log, refl)
Boot-cases (running log) = inr (log, refl)

abbrev pub and_then : Boot → (List Call → Boot) → Boot
and_then (exited log) f = exited log
and_then (running log) f = f log

infixl 20 ◌▷◌
-- One statement after another.
abbrev pub ◌▷◌ : (List Call → Boot) → (List Call → Boot) → List Call → Boot
(p ▷ q) log = and_then (p log) q
