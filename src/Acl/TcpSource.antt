-- ===== src/Acl/TcpSource.antt =====
-- ACL/exp/main.c: the rule of `main`, and the body of its loop over a burst.
use dpdk_starter.Base.{
  ℕ, ◌+◌, ◌*◌, ◌%◌, ◌≡◌, not, ◌&&◌, [], ◌∷◌, ◌==◌, if◌then◌else◌, Bool-cases, inl, inr, arith,
}
use dpdk_starter.Packet.{
  Mbuf, be16, be32, IsBytes, ether_type_ipv4, ether_type_vlan, ipproto_tcp, ipproto_udp, rte_ipv4,
}
use dpdk_starter.Acl.{Rule, Key, matches, AclApi}
use dpdk_starter.Acl.Matching.{bit_and-full}

abbrev pub rule : Rule
rule = record {
  priority = 10;
  userdata = 1;
  proto = ipproto_tcp;
  proto_mask = 0xff;
  src = rte_ipv4 172 17 166 200;
  src_prefix = 32;
  dst = 0;
  dst_prefix = 0;
  sport_low = 0;
  sport_high = 65535;
  dport_low = 0;
  dport_high = 65535;
}

-- The key of a packet whose IPv4 header is at `ptr`. Its fields keep the network order, so lib/acl
-- reads their values; without a TCP or UDP header the ports are 0.
unfoldable pub key_at : Mbuf → ℕ → Key
key_at m ptr =
    let proto = m.byte (ptr + 9) in
    let l4 = ptr + m.byte ptr % 16 * 4 in
    let src = be32 m (ptr + 12) in
    let dst = be32 m (ptr + 16) in
    let with_ports : Key = record {
      proto = proto;
      src_ip = src;
      dst_ip = dst;
      src_port = be16 m l4;
      dst_port = be16 m (l4 + 2);
    } in
    if proto == ipproto_tcp
    then with_ports
    else if proto == ipproto_udp
    then with_ports
    else record with_ports { src_port = 0; dst_port = 0 }

-- What is printed; the packet is freed in every case.
pub data Outcome : Type 0 where
  not_ipv4 acl_match acl_no_match : Outcome

unfoldable pub handle_packet : AclApi → Mbuf → Outcome
unfolding key_at
handle_packet api m =
    let tagged = be16 m 12 == ether_type_vlan in
    let ptr = if tagged then 18 else 14 in
    let eth_type = if tagged then be16 m 16 else be16 m 12 in
    if not (eth_type == ether_type_ipv4)
    then not_ipv4
    else if not (api.classify (rule ∷ []) (key_at m ptr) == 0)
    then acl_match
    else acl_no_match

key-matches :
    (m : Mbuf) (ptr : ℕ)
    → IsBytes m
    → matches rule (key_at m ptr)
      ≡ (m.byte (ptr + 9) == ipproto_tcp && be32 m (ptr + 12) == rte_ipv4 172 17 166 200)
unfolding matches key_at
key-matches m ptr h =
    let l4 : ℕ = ptr + m.byte ptr % 16 * 4 in
    ground (
      arith,
      bit_and-full (m.byte (ptr + 9)),
      h (ptr + 9),
      h (ptr + 12),
      h (ptr + 12 + 1),
      h (ptr + 12 + 2),
      h (ptr + 12 + 2 + 1),
      h (ptr + 16),
      h (ptr + 16 + 1),
      h (ptr + 16 + 2),
      h (ptr + 16 + 2 + 1),
      h l4,
      h (l4 + 1),
      h (l4 + 2),
      h (l4 + 2 + 1),
    )

module _ (api : AclApi) where
  open api use {classify, classify_none, classify_best}

  by_rule : (k : Key) → classify (rule ∷ []) k ≡ (if matches rule k then 1 else 0)
  by_rule k = elim (Bool-cases (matches rule k)) [
    | inl m ↦ rw m (classify_best [] rule [] k m tt)
    | inr n ↦ rw n (classify_none (rule ∷ []) k (n, tt))
  ]

  -- A frame with or without a VLAN tag matches exactly if it is IPv4, its protocol is TCP and its
  -- source address is 172.17.166.200; other IPv4 frames do not match, and other frames are not IPv4.
  pub tcp_source_lem :
      (m : Mbuf)
      → IsBytes m
      → let ptr : ℕ = if be16 m 12 == ether_type_vlan then 18 else 14 in
        handle_packet api m ≡ (
          if be16 m (if be16 m 12 == ether_type_vlan then 16 else 12) == ether_type_ipv4
          then if m.byte (ptr + 9) == ipproto_tcp && be32 m (ptr + 12) == rte_ipv4 172 17 166 200
            then acl_match
            else acl_no_match
          else not_ipv4)
  unfolding handle_packet
  tcp_source_lem m h = elim (Bool-cases (be16 m 12 == ether_type_vlan)) [
    | inl tagged ↦ rw tagged (ground (arith, key-matches m 18 h, by_rule (key_at m 18)))
    | inr untagged ↦ rw untagged (ground (arith, key-matches m 14 h, by_rule (key_at m 14)))
  ]
