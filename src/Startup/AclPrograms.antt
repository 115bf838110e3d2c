-- ===== src/Startup/AclPrograms.antt =====
-- The starts of ACL/exp, ACL/real_packet_acl, ACL/l2fwd_acl and ACL/dual_rule_implementation.
use Prim.Native.Nat.{bit_and}
use dpdk_starter.Base.{
  u32, Option, none, some, ◌++◌, ◌≡◌, refl, ℕ, ◌^◌, List, [], ◌∷◌, if◌then◌else◌, Bool, not, ◌==◌,
}
use dpdk_starter.Startup.{
  Call, Env, Boot, running, checked, ignored, and_then, ◌▷◌, eal_init, count_ports, pool_create,
  acl_create, acl_add_rules, acl_build, dev_info, dev_start, promiscuous_enable, dev_configure,
  rx_queue_setup, tx_queue_setup,
}

-- ACL/exp/main.c
unfoldable pub tcp_source_start : Env → List Call → Boot
tcp_source_start env =
    checked env eal_init
    ▷ checked env count_ports
    ▷ ignored env (dev_info 0)
    ▷ checked env pool_create
    ▷ checked env (dev_configure 0 1 1)
    ▷ checked env (rx_queue_setup 0 0)
    ▷ checked env (tx_queue_setup 0 0)
    ▷ checked env (dev_start 0)
    ▷ ignored env (promiscuous_enable 0)
    ▷ checked env acl_create
    ▷ checked env acl_add_rules
    ▷ checked env acl_build

-- ACL/real_packet_acl/main2.c
unfoldable pub ssdp_start : Env → List Call → Boot
ssdp_start env =
    checked env eal_init
    ▷ checked env count_ports
    ▷ checked env (dev_info 0)
    ▷ checked env pool_create
    ▷ checked env (dev_configure 0 1 1)
    ▷ checked env (rx_queue_setup 0 0)
    ▷ checked env (tx_queue_setup 0 0)
    ▷ checked env (dev_start 0)
    ▷ ignored env (promiscuous_enable 0)
    ▷ checked env acl_create
    ▷ checked env acl_add_rules
    ▷ checked env acl_build

-- ACL/l2fwd_acl/main.c
abbrev pub init_acl : Env → List Call → Boot
init_acl env = checked env acl_create ▷ checked env acl_add_rules ▷ checked env acl_build

-- `portmask & (1 << port_id)`
abbrev pub in_mask : ℕ → ℕ → Bool
in_mask portmask port = not (bit_and portmask (2 ^ port) == 0)

unfoldable pub start_port : Env → ℕ → ℕ → List Call → Boot
start_port env portmask port log =
    if not (in_mask portmask port)
    then running log
    else (checked env (dev_configure port 1 1)
          ▷ checked env (rx_queue_setup port 0)
          ▷ checked env (tx_queue_setup port 0)
          ▷ checked env (dev_start port)
          ▷ ignored env (promiscuous_enable port))
        log

-- The loop over the ports that `RTE_ETH_FOREACH_DEV` yields.
unfoldable pub start_ports : Env → ℕ → List ℕ → List Call → Boot
unfolding start_port
start_ports env portmask [] log = running log
start_ports env portmask (port ∷ ports) log =
    and_then (start_port env portmask port log) (λ l. start_ports env portmask ports l)

unfoldable pub l2fwd_start : Env → ℕ → List ℕ → List Call → Boot
unfolding start_ports
l2fwd_start env portmask ports =
    checked env eal_init ▷ init_acl env ▷ checked env pool_create ▷ start_ports env portmask ports

-- ACL/dual_rule_implementation/main.c
unfoldable pub dual_rule_start : Env → List Call → Boot
dual_rule_start env =
    checked env eal_init
    ▷ checked env acl_create
    ▷ checked env acl_add_rules
    ▷ checked env acl_build

-- ACL/muti_rule/main.c
unfoldable pub multi_rule_start : Env → List Call → Boot
multi_rule_start env =
    ignored env eal_init
    ▷ checked env acl_create
    ▷ checked env acl_add_rules
    ▷ checked env acl_build

-- What `getopt` returns: `-p` with the number that `strtoul` reads, or another option.
pub data Opt : Type 0 where
  opt_p : ℕ → Opt
  opt_other : Opt

abbrev pub default_portmask : ℕ
default_portmask = 1

-- ACL/l2fwd_acl/main.c: the options one after another; `none` for -1.
unfoldable pub parse_args : ℕ → List Opt → Option ℕ
parse_args portmask [] = some portmask
parse_args portmask (opt_p n ∷ rest) = parse_args (u32 n) rest
parse_args portmask (opt_other ∷ rest) = none

-- Another option anywhere is an error.
pub parse_args-other :
    (portmask : ℕ) (before after : List Opt)
    → parse_args portmask (before ++ (opt_other ∷ after)) ≡ none
unfolding parse_args
parse_args-other portmask [] after = refl
parse_args-other portmask (opt_p n ∷ before) after = parse_args-other (u32 n) before after
parse_args-other portmask (opt_other ∷ before) after = refl
