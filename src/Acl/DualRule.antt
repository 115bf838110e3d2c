-- ===== src/Acl/DualRule.antt =====
-- ACL/dual_rule_implementation/main.c: the two rules, the packet key of `main`, and its verdict.
use dpdk_starter.Base.{
  ℕ, ◌≡◌, Bool, true, false, ◌&&◌, List, [], ◌∷◌, ◌==◌, if◌then◌else◌, Bool-cases, inl, inr, arith,
}
use dpdk_starter.Packet.{rte_ipv4}
use dpdk_starter.Acl.{Rule, Key, matches, AclApi}
use dpdk_starter.Acl.Matching.{bit_and-full, bit_and-none}
use dpdk_starter.Acl.MultiRule.{IsKey}

abbrev pub action_allow : ℕ
action_allow = 777

abbrev pub action_drop : ℕ
action_drop = 0

-- `// Rule 0: allow specific TCP flow`
abbrev pub allow_rule : Rule
allow_rule = record {
  priority = 100;
  userdata = action_allow;
  proto = 6;
  proto_mask = 0xff;
  src = rte_ipv4 140 82 112 21;
  src_prefix = 32;
  dst = rte_ipv4 172 17 166 200;
  dst_prefix = 32;
  sport_low = 443;
  sport_high = 443;
  dport_low = 42960;
  dport_high = 42960;
}

-- `// Rule 1: default DROP (wildcard rule)`
abbrev pub drop_rule : Rule
drop_rule = record {
  priority = 1;
  userdata = action_drop;
  proto = 0;
  proto_mask = 0;
  src = 0;
  src_prefix = 0;
  dst = 0;
  dst_prefix = 0;
  sport_low = 0;
  sport_high = 0;
  dport_low = 0;
  dport_high = 0;
}

abbrev pub rules : List Rule
rules = allow_rule ∷ drop_rule ∷ []

-- The key of `main`; its fields are stored in network order.
abbrev pub pkt : Key
pkt = record {
  proto = 6;
  src_ip = rte_ipv4 140 82 112 21;
  dst_ip = rte_ipv4 172 17 166 200;
  src_port = 443;
  dst_port = 42960;
}

-- What the loop of `main` prints in a round: `MATCHED: packet allowed` or `DEFAULT DROP applied`.
pub data Verdict : Type 0 where
  allowed default_drop : Verdict

unfoldable pub check_packet : AclApi → Key → Verdict
check_packet api k = if api.classify rules k == action_allow then allowed else default_drop

-- The key is of the one flow that rule 0 allows.
abbrev pub is_flow : Key → Bool
is_flow k =
    k.proto == 6
    && k.src_ip == rte_ipv4 140 82 112 21
    && k.dst_ip == rte_ipv4 172 17 166 200
    && k.src_port == 443
    && k.dst_port == 42960

allow-matches : (k : Key) → IsKey k → matches allow_rule k ≡ is_flow k
unfolding matches
allow-matches k h = ground (arith, bit_and-full k.proto h.proto, h)

-- The rule that the source calls a wildcard has the port ranges 0 to 0: it matches exactly the keys
-- both of whose ports are 0.
pub drop_rule-matches :
    (k : Key) → IsKey k → matches drop_rule k ≡ (k.src_port == 0 && k.dst_port == 0)
unfolding matches
drop_rule-matches k h = ground (arith, bit_and-none k.proto h.proto, h)

module _ (api : AclApi) where
  open api use {classify, classify_none, classify_best}

  by_allow : (k : Key) → matches allow_rule k ≡ true → classify rules k ≡ action_allow
  by_allow k m = classify_best [] allow_rule (drop_rule ∷ []) k m ((λ _. omega arith), tt)

  by_drop : (k : Key) → matches allow_rule k ≡ false → classify rules k ≡ action_drop
  by_drop k n = elim (Bool-cases (matches drop_rule k)) [
    | inl m ↦ classify_best (allow_rule ∷ []) drop_rule [] k m ((λ e. cc), tt)
    | inr m ↦ classify_none rules k (n, (m, tt))
  ]

  -- The loop of `main` allows a key exactly if it is TCP from 140.82.112.21, port 443, to
  -- 172.17.166.200, port 42960, and drops every other key.
  pub check_packet_lem :
      (k : Key) → IsKey k → check_packet api k ≡ (if is_flow k then allowed else default_drop)
  unfolding check_packet
  check_packet_lem k h = ground (arith, allow-matches k h, by_allow k, by_drop k)
