-- ===== src/Acl.antt =====
-- The ACL programs (ACL/*): their rules, and lib/acl of DPDK, which is not part of the repository, as
-- an interface. Each program has five fields: the protocol as a bit mask, two IPv4 addresses with
-- prefix lengths, and two ports as ranges.
pub mod Matching
pub mod Best
pub mod MultiRule
pub mod DualRule
pub mod TcpSource
pub mod L2fwd
pub mod Ssdp
pub mod Fields
mod Tests
use Prim.Native.Nat.{bit_and}
use dpdk_starter.Base.{
  ℕ, ◌-◌, ◌/◌, ◌^◌, ◌<◌, ◌≡◌, Bool, true, false, ◌&&◌, List, [], ◌∷◌, ◌++◌, leb, ◌==◌, All,
}

-- `struct acl_rule`: `data` and the pairs `value` and `mask_range` of the fields.
pub record Rule : Type 0 where
  pub priority : ℕ
  pub userdata : ℕ
  pub proto : ℕ
  pub proto_mask : ℕ
  pub src : ℕ
  pub src_prefix : ℕ
  pub dst : ℕ
  pub dst_prefix : ℕ
  pub sport_low : ℕ
  pub sport_high : ℕ
  pub dport_low : ℕ
  pub dport_high : ℕ

-- `struct pkt_key`: each field as lib/acl reads it, most significant byte first.
pub record Key : Type 0 where
  pub proto : ℕ
  pub src_ip : ℕ
  pub dst_ip : ℕ
  pub src_port : ℕ
  pub dst_port : ℕ

-- RTE_ACL_FIELD_TYPE_MASK: the first `prefix` of 32 bits are the same.
abbrev pub same_prefix : ℕ → ℕ → ℕ → Bool
same_prefix prefix value x = x / 2 ^ (32 - prefix) == value / 2 ^ (32 - prefix)

-- RTE_ACL_FIELD_TYPE_RANGE
abbrev pub in_range : ℕ → ℕ → ℕ → Bool
in_range low high x = leb low x && leb x high

-- When a rule matches a key, by the manual of lib/acl.
unfoldable pub matches : Rule → Key → Bool
matches r k =
    bit_and k.proto r.proto_mask == bit_and r.proto r.proto_mask
    && same_prefix r.src_prefix r.src k.src_ip
    && same_prefix r.dst_prefix r.dst k.dst_ip
    && in_range r.sport_low r.sport_high k.src_port
    && in_range r.dport_low r.dport_high k.dst_port

-- `rte_acl_classify` of one key in one category: the `userdata` of the matching rule with the highest
-- priority, and 0 if no rule matches.
pub record AclApi : Type 0 where
  pub classify : List Rule → Key → ℕ
  pub classify_none :
      (rules : List Rule) (k : Key) → All (λ r. matches r k ≡ false) rules → classify rules k ≡ 0
  pub classify_best :
      (before : List Rule) (r : Rule) (after : List Rule) (k : Key)
      → matches r k ≡ true
      → All (λ q. matches q k ≡ true → q.priority < r.priority) (before ++ after)
      → classify (before ++ (r ∷ after)) k ≡ r.userdata
