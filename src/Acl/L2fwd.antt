-- ===== src/Acl/L2fwd.antt =====
-- ACL/l2fwd_acl/main.c: the rule of `init_acl`, the body of the loop over a burst, and `signal_handler`.
use dpdk_starter.Base.{
  ℕ, ◌+◌, ◌*◌, ◌/◌, ◌%◌, ◌≡◌, Bool, true, not, ◌&&◌, ◌||◌, [], ◌∷◌, ◌==◌, if◌then◌else◌, Bool-cases,
  inl, inr, arith,
}
use dpdk_starter.Packet.{
  Mbuf, be16, be32, IsBytes, ether_type_ipv4, ipproto_tcp, ipproto_udp, rte_ipv4,
}
use dpdk_starter.Acl.{Rule, Key, matches, AclApi}
use dpdk_starter.Acl.Matching.{bit_and-full}

-- `rte_be_to_cpu_16` and `rte_be_to_cpu_32` of a value on a little-endian machine.
abbrev pub bswap16 : ℕ → ℕ
bswap16 x = x % 256 * 256 + x / 256 % 256

abbrev pub bswap32 : ℕ → ℕ
bswap32 x = bswap16 (x % 65536) * 65536 + bswap16 (x / 65536)

-- The source address of the rule is swapped.
abbrev pub rule : Rule
rule = record {
  priority = 10;
  userdata = 1;
  proto = ipproto_tcp;
  proto_mask = 0xff;
  src = bswap32 (rte_ipv4 172 17 166 200);
  src_prefix = 32;
  dst = 0;
  dst_prefix = 0;
  sport_low = 0;
  sport_high = 65535;
  dport_low = 0;
  dport_high = 65535;
}

-- The fields of the key are stored in host order, so lib/acl reads them with their bytes swapped.
unfoldable pub packet_key : Mbuf → Key
packet_key m =
    let proto = m.byte 23 in
    let l4 = 14 + m.byte 14 % 16 * 4 in
    let with_ports : Key = record {
      proto = proto;
      src_ip = bswap32 (be32 m 26);
      dst_ip = bswap32 (be32 m 30);
      src_port = bswap16 (be16 m l4);
      dst_port = bswap16 (be16 m (l4 + 2));
    } in
    if proto == ipproto_tcp
    then with_ports
    else if proto == ipproto_udp
    then with_ports
    else record with_ports { src_port = 0; dst_port = 0 }

-- What is done with the mbuf.
pub data Action : Type 0 where
  free transmit : Action

unfoldable pub handle_packet : AclApi → Mbuf → Action
unfolding packet_key
handle_packet api m =
    if not (be16 m 12 == ether_type_ipv4)
    then free
    else if not (api.classify (rule ∷ []) (packet_key m) == 0)
    then transmit
    else free

-- `SIGINT` is 2 and `SIGTERM` is 15.
unfoldable pub signal_handler : Bool → ℕ → Bool
signal_handler force_quit sig = if sig == 2 || sig == 15 then true else force_quit

key-matches :
    (m : Mbuf)
    → IsBytes m
    → matches rule (packet_key m)
      ≡ (m.byte 23 == ipproto_tcp && be32 m 26 == rte_ipv4 172 17 166 200)
unfolding matches packet_key
key-matches m h =
    let l4 : ℕ = 14 + m.byte 14 % 16 * 4 in
    ground (
      arith,
      bit_and-full (m.byte 23),
      h 23,
      h 26,
      h 27,
      h 28,
      h 29,
      h 30,
      h 31,
      h 32,
      h 33,
      h l4,
      h (l4 + 1),
      h (l4 + 2),
      h (l4 + 2 + 1),
    )

module _ (api : AclApi) where
  open api use {classify, classify_none, classify_best}

  by_rule : (k : Key) → classify (rule ∷ []) k ≡ (if matches rule k then 1 else 0)
  by_rule k = elim (Bool-cases (matches rule k)) [
    | inl m ↦ rw m (classify_best [] rule [] k m tt)
    | inr n ↦ rw n (classify_none (rule ∷ []) k (n, tt))
  ]

  -- A frame is transmitted exactly if its type at byte 12 is IPv4, its protocol is TCP and its
  -- source address is 172.17.166.200; every other frame is freed, one with a VLAN tag included.
  pub l2fwd_acl_lem :
      (m : Mbuf)
      → IsBytes m
      → handle_packet api m ≡ (
          if be16 m 12 == ether_type_ipv4
            && m.byte 23 == ipproto_tcp
            && be32 m 26 == rte_ipv4 172 17 166 200
          then transmit
          else free)
  unfolding handle_packet
  l2fwd_acl_lem m h = ground (arith, key-matches m h, by_rule (packet_key m))
