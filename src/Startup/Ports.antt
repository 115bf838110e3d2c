-- ===== src/Startup/Ports.antt =====
-- ACL/l2fwd_acl/main.c: the ports that its loop polls.
use dpdk_starter.Base.{ℕ, ◌≡◌, true, inl, inr, List, [], ◌∷◌, arith}
use dpdk_starter.Startup.{
  Call, Env, running, Boot-cases, eal_init, pool_create, acl_create, acl_add_rules, acl_build,
}
use dpdk_starter.Startup.Device.{is_up, has}
use dpdk_starter.Startup.AclPrograms.{in_mask, start_port, start_ports, l2fwd_start}

-- A port of the mask is up when its turn is over.
start_port_own :
    (env : Env) (mask port : ℕ) (log after : List Call)
    → in_mask mask port ≡ true
    → start_port env mask port log ≡ running after
    → is_up env port 1 1 after ≡ true
unfolding start_port is_up
start_port_own env mask port log after m h = ground arith

-- A port that is up stays up when another, or the same, is started.
start_port_other :
    (env : Env) (mask port other : ℕ) (log after : List Call)
    → is_up env port 1 1 log ≡ true
    → start_port env mask other log ≡ running after
    → is_up env port 1 1 after ≡ true
unfolding start_port is_up
start_port_other env mask port other log after u h = ground arith

start_ports_keep :
    (env : Env) (mask port : ℕ) (ports : List ℕ) (log after : List Call)
    → is_up env port 1 1 log ≡ true
    → start_ports env mask ports log ≡ running after
    → is_up env port 1 1 after ≡ true
unfolding start_ports
start_ports_keep env mask port [] log after u h = ground arith
start_ports_keep env mask port (q ∷ ports) log after u h =
    elim (Boot-cases (start_port env mask q log)) [
      | inl (l, e) ↦ ground (arith, e)
      | inr (l, e) ↦
          start_ports_keep env mask port ports l after (start_port_other env mask port q log l u e)
            (ground (arith, e))
    ]

start_ports_all :
    (env : Env) (mask port : ℕ) (ports : List ℕ) (log after : List Call)
    → has ports port ≡ true
    → in_mask mask port ≡ true
    → start_ports env mask ports log ≡ running after
    → is_up env port 1 1 after ≡ true
unfolding start_ports
start_ports_all env mask port [] log after i m h = ground arith
start_ports_all env mask port (q ∷ ports) log after i m h =
    elim (Boot-cases (start_port env mask q log)) [
      | inl (l, e) ↦ ground (arith, e)
      | inr (l, e) ↦ ground (
        arith,
        e,
        start_port_own env mask port log l m,
        start_ports_keep env mask port ports l after,
        start_ports_all env mask port ports l after,
      )
    ]

-- When the program goes on to its loop, every port that RTE_ETH_FOREACH_DEV yields and that is in the
-- port mask, which are the ports that the loop polls, is started with one receive and one transmit
-- queue, both set up.
pub l2fwd_start-is_up :
    (env : Env) (mask port : ℕ) (ports : List ℕ) (log : List Call)
    → has ports port ≡ true
    → in_mask mask port ≡ true
    → l2fwd_start env mask ports [] ≡ running log
    → is_up env port 1 1 log ≡ true
unfolding l2fwd_start
l2fwd_start-is_up env mask port ports log i m h =
    let calls : List Call = pool_create ∷ acl_build ∷ acl_add_rules ∷ acl_create ∷ eal_init ∷ [] in
    ground (arith, start_ports_all env mask port ports calls log i m)
