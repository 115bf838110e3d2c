-- ===== src/Acl/Ssdp.antt =====
-- ACL/real_packet_acl/main2.c: the rule of `main`, and the body of its loop over a burst.
use dpdk_starter.Base.{
  ℕ, ◌+◌, ◌*◌, ◌%◌, ◌≡◌, Bool, not, ◌&&◌, [], ◌∷◌, ◌==◌, if◌then◌else◌, Bool-cases, inl, inr, arith,
}
use dpdk_starter.Packet.{
  Mbuf, be16, be32, IsBytes, ether_type_ipv4, ether_type_vlan, ipproto_udp, rte_ipv4,
}
use dpdk_starter.Acl.{Rule, Key, matches, AclApi}
use dpdk_starter.Acl.Matching.{bit_and-full}
use dpdk_starter.Acl.TcpSource.{key_at, Outcome, not_ipv4, acl_match, acl_no_match}

-- `// Rule: match SSDP multicast traffic`
abbrev pub ssdp_rule : Rule
ssdp_rule = record {
  priority = 10;
  userdata = 1;
  proto = ipproto_udp;
  proto_mask = 0xff;
  src = 0;
  src_prefix = 0;
  dst = rte_ipv4 239 255 255 250;
  dst_prefix = 32;
  sport_low = 0;
  sport_high = 65535;
  dport_low = 1900;
  dport_high = 1900;
}

-- The key is made as in ACL/exp/main.c, by the same statements.
unfoldable pub handle_ssdp : AclApi → Mbuf → Outcome
handle_ssdp api m =
    let tagged = be16 m 12 == ether_type_vlan in
    let ptr : ℕ = if tagged then 18 else 14 in
    let eth_type : ℕ = if tagged then be16 m 16 else be16 m 12 in
    if not (eth_type == ether_type_ipv4)
    then not_ipv4
    else if not (api.classify (ssdp_rule ∷ []) (key_at m ptr) == 0)
    then acl_match
    else acl_no_match

-- UDP to 239.255.255.250, port 1900, with the IPv4 header at `ptr`.
abbrev pub is_ssdp : Mbuf → ℕ → Bool
is_ssdp m ptr =
    m.byte (ptr + 9) == ipproto_udp
    && be32 m (ptr + 16) == rte_ipv4 239 255 255 250
    && be16 m (ptr + m.byte ptr % 16 * 4 + 2) == 1900

ssdp-matches : (m : Mbuf) (ptr : ℕ) → IsBytes m → matches ssdp_rule (key_at m ptr) ≡ is_ssdp m ptr
unfolding matches key_at
ssdp-matches m ptr h =
    let l4 : ℕ = ptr + m.byte ptr % 16 * 4 in
    ground (
      arith,
      bit_and-full (m.byte (ptr + 9)),
      h (ptr + 9),
      h (ptr + 12),
      h (ptr + 12 + 1),
      h (ptr + 12 + 2),
      h (ptr + 12 + 2 + 1),
      h (ptr + 16),
      h (ptr + 16 + 1),
      h (ptr + 16 + 2),
      h (ptr + 16 + 2 + 1),
      h l4,
      h (l4 + 1),
      h (l4 + 2),
      h (l4 + 2 + 1),
    )

module _ (api : AclApi) where
  open api use {classify, classify_none, classify_best}

  by_rule : (k : Key) → classify (ssdp_rule ∷ []) k ≡ (if matches ssdp_rule k then 1 else 0)
  by_rule k = elim (Bool-cases (matches ssdp_rule k)) [
    | inl m ↦ rw m (classify_best [] ssdp_rule [] k m tt)
    | inr n ↦ rw n (classify_none (ssdp_rule ∷ []) k (n, tt))
  ]

  -- A frame with or without a VLAN tag matches exactly if it is IPv4, UDP, and goes to
  -- 239.255.255.250, port 1900; other IPv4 frames do not match, and other frames are not IPv4.
  pub handle_ssdp_lem :
      (m : Mbuf)
      → IsBytes m
      → let ptr : ℕ = if be16 m 12 == ether_type_vlan then 18 else 14 in
        handle_ssdp api m ≡ (
          if be16 m (if be16 m 12 == ether_type_vlan then 16 else 12) == ether_type_ipv4
          then if is_ssdp m ptr then acl_match else acl_no_match
          else not_ipv4)
  unfolding handle_ssdp
  handle_ssdp_lem m h = elim (Bool-cases (be16 m 12 == ether_type_vlan)) [
    | inl tagged ↦ rw tagged (ground (arith, ssdp-matches m 18 h, by_rule (key_at m 18)))
    | inr untagged ↦ rw untagged (ground (arith, ssdp-matches m 14 h, by_rule (key_at m 14)))
  ]
