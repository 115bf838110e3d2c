-- ===== src/Acl/MultiRule.antt =====
-- ACL/muti_rule/main.c: `add_rule`, and the three rules of `main`.
use dpdk_starter.Base.{
  ℕ, ◌<◌, ◌≡◌, true, false, ◌&&◌, List, [], ◌∷◌, ◌==◌, if◌then◌else◌, Bool-cases, inl, inr, arith,
}
use dpdk_starter.Acl.{Rule, Key, matches, AclApi}
use dpdk_starter.Acl.Matching.{bit_and-full}

unfoldable pub add_rule : ℕ → ℕ → ℕ → ℕ → ℕ → ℕ → ℕ → ℕ → ℕ → ℕ → ℕ → Rule
add_rule proto src src_mask dst dst_mask sport_low sport_high dport_low dport_high priority
      userdata =
    record {
      priority = priority;
      userdata = userdata;
      proto = proto;
      proto_mask = 0xff;
      src = src;
      src_prefix = src_mask;
      dst = dst;
      dst_prefix = dst_mask;
      sport_low = sport_low;
      sport_high = sport_high;
      dport_low = dport_low;
      dport_high = dport_high;
    }

-- `// Rule 1: Allow DNS UDP port 53`
abbrev pub dns_rule : Rule
unfolding add_rule
dns_rule = add_rule 17 0 0 0 0 0 65535 53 53 100 1

-- `// Rule 2: Allow HTTP TCP port 80`
abbrev pub http_rule : Rule
unfolding add_rule
http_rule = add_rule 6 0 0 0 0 0 65535 80 80 90 2

-- `// Rule 3: Default catch-all rule`
abbrev pub default_rule : Rule
unfolding add_rule
default_rule = add_rule 0 0 0 0 0 0 65535 0 65535 1 0

abbrev pub rules : List Rule
rules = dns_rule ∷ http_rule ∷ default_rule ∷ []

-- The fields of a key have the widths of `struct pkt_key`.
pub record IsKey (k : Key) : Type 0 where
  pub proto : k.proto < 256
  pub src_ip : k.src_ip < 4294967296
  pub dst_ip : k.dst_ip < 4294967296
  pub src_port : k.src_port < 65536
  pub dst_port : k.dst_port < 65536

dns-matches : (k : Key) → IsKey k → matches dns_rule k ≡ (k.proto == 17 && k.dst_port == 53)
unfolding matches add_rule
dns-matches k h = ground (arith, bit_and-full k.proto h.proto, h)

http-matches : (k : Key) → IsKey k → matches http_rule k ≡ (k.proto == 6 && k.dst_port == 80)
unfolding matches add_rule
http-matches k h = ground (arith, bit_and-full k.proto h.proto, h)

-- The rule that the source calls catch-all compares the whole protocol byte with 0: it matches the
-- keys of protocol 0 exactly, and so no TCP, UDP or ICMP packet.
pub default_rule-matches : (k : Key) → IsKey k → matches default_rule k ≡ (k.proto == 0)
unfolding matches add_rule
default_rule-matches k h = ground (arith, bit_and-full k.proto h.proto, h)

module _ (api : AclApi) where
  open api use {classify, classify_none, classify_best}

  by_dns : (k : Key) → matches dns_rule k ≡ true → classify rules k ≡ 1
  unfolding add_rule
  by_dns k d =
      classify_best [] dns_rule (http_rule ∷ default_rule ∷ []) k d
        ((λ _. omega arith), ((λ _. omega arith), tt))

  by_http :
      (k : Key) → matches dns_rule k ≡ false → matches http_rule k ≡ true → classify rules k ≡ 2
  unfolding add_rule
  by_http k d t =
      classify_best (dns_rule ∷ []) http_rule (default_rule ∷ []) k t
        ((λ e. cc), ((λ _. omega arith), tt))

  by_default :
      (k : Key) → matches dns_rule k ≡ false → matches http_rule k ≡ false → classify rules k ≡ 0
  unfolding add_rule
  by_default k d t = elim (Bool-cases (matches default_rule k)) [
    | inl m ↦
        classify_best (dns_rule ∷ http_rule ∷ []) default_rule [] k m ((λ e. cc), ((λ e. cc), tt))
    | inr m ↦ classify_none rules k (d, (t, (m, tt)))
  ]

  -- With the three rules of `main`, a key is classified 1 if it is UDP to port 53, 2 if it is TCP to
  -- port 80, and 0 otherwise, whatever its addresses and its source port are.
  pub classify-rules :
      (k : Key)
      → IsKey k
      → classify rules k ≡ (
          if k.proto == 17 && k.dst_port == 53
          then 1
          else if k.proto == 6 && k.dst_port == 80
          then 2
          else 0)
  classify-rules k h =
      ground (arith, dns-matches k h, http-matches k h, by_dns k, by_http k, by_default k)
