-- ===== src/GraphPipeline/Sorting.antt =====
-- What kind of packet each stream holds, and the bound of the arrays of `l2_node_process`.
use mathlib.Core.Path.{subst}
use dpdk_starter.Base.{
  ℕ, ◌+◌, ◌≤◌, ◌≡◌, ◌≢◌, ◌⊎◌, inl, inr, List, [], ◌∷◌, length, length-append, take, drop, All,
  All-append, All-append_left, take-append-drop, sym, arith,
}
use dpdk_starter.Packet.{Mbuf, be16, ether_type_ipv4, ether_type_ipv6}
use dpdk_starter.GraphPipeline.{
  State, Split, rx_node_process, split_one, split_all, no_split, l2_node_process, ipv4_node_process,
  ipv6_node_process, tx_node_process, drop_node_process, IsQuiet, Run, run_l2, run_ipv4, run_ipv6,
  run_tx, run_drop, Reach, start, receive, run,
}

module _ (frame : ℕ → Mbuf) where
  abbrev pub Ipv4 : ℕ → Type 0
  Ipv4 m = be16 (frame m) 12 ≡ ether_type_ipv4

  abbrev pub Ipv6 : ℕ → Type 0
  Ipv6 m = be16 (frame m) 12 ≡ ether_type_ipv6

  abbrev pub Ip : ℕ → Type 0
  Ip m = Ipv4 m ⊎ Ipv6 m

  abbrev pub Other : ℕ → Type 0
  Other m = (be16 (frame m) 12 ≢ ether_type_ipv4) × (be16 (frame m) 12 ≢ ether_type_ipv6)

  record IsSplit (p : Split) : Type 0 where
    v4 : All Ipv4 p.v4
    v6 : All Ipv6 p.v6
    d : All Other p.d

  split_one-IsSplit : (p : Split) (m : ℕ) → IsSplit p → IsSplit (split_one frame p m)
  unfolding split_one
  split_one-IsSplit p m h = ground (
    arith,
    All-append Ipv4 p.v4 (m ∷ []) h.v4,
    All-append Ipv6 p.v6 (m ∷ []) h.v6,
    All-append Other p.d (m ∷ []) h.d,
  )

  split_all-IsSplit : (p : Split) (ms : List ℕ) → IsSplit p → IsSplit (split_all frame p ms)
  unfolding split_all
  split_all-IsSplit p [] h = h
  split_all-IsSplit p (m ∷ ms) h =
      split_all-IsSplit (split_one frame p m) ms (split_one-IsSplit p m h)

  no_split-IsSplit : IsSplit no_split
  no_split-IsSplit = record { v4 = tt; v6 = tt; d = tt }

  abbrev split_length : Split → ℕ
  split_length p = length p.v4 + length p.v6 + length p.d

  split_one-length : (p : Split) (m : ℕ) → split_length (split_one frame p m) ≡ split_length p + 1
  unfolding split_one
  split_one-length p m =
      ground (
        arith,
        length-append p.v4 (m ∷ []),
        length-append p.v6 (m ∷ []),
        length-append p.d (m ∷ []),
      )

  pub split_all-length :
      (p : Split) (ms : List ℕ)
      → length (split_all frame p ms).v4
          + length (split_all frame p ms).v6
          + length (split_all frame p ms).d
        ≡ length p.v4 + length p.v6 + length p.d + length ms
  unfolding split_all
  split_all-length p [] = omega arith
  split_all-length p (m ∷ ms) =
      omega (arith, split_all-length (split_one frame p m) ms, split_one-length p m)

  All-Ip_left : (xs : List ℕ) → All Ipv4 xs → All Ip xs
  All-Ip_left [] h = tt
  All-Ip_left (x ∷ xs) h = (inl h.0, All-Ip_left xs h.1)

  All-Ip_right : (xs : List ℕ) → All Ipv6 xs → All Ip xs
  All-Ip_right [] h = tt
  All-Ip_right (x ∷ xs) h = (inr h.0, All-Ip_right xs h.1)

  All-take : (P : ℕ → Type 0) (n : ℕ) (xs : List ℕ) → All P xs → All P (take n xs)
  All-take P n xs h =
      All-append_left P (take n xs) (drop n xs) (subst (All P) (sym (take-append-drop n xs)) h)

  pub record IsSorted (s : State) : Type 0 where
    pub ipv4 : All Ipv4 s.ipv4
    pub ipv6 : All Ipv6 s.ipv6
    pub dropped : All Other s.dropped
    pub tx : All Ip s.tx
    pub sent : All Ip s.sent
    pub l2_bound : length s.l2 ≤ 32

  l2-IsSorted : (s : State) → IsSorted s → IsSorted (l2_node_process frame s)
  unfolding l2_node_process
  l2-IsSorted s h =
      let p : Split = split_all frame no_split s.l2 in
      let k : IsSplit p = split_all-IsSplit no_split s.l2 no_split-IsSplit in
      ground (
        arith,
        All-append Ipv4 s.ipv4 p.v4 h.ipv4 k.v4,
        All-append Ipv6 s.ipv6 p.v6 h.ipv6 k.v6,
        All-append Other s.dropped p.d h.dropped k.d,
      )

  Run-IsSorted : {s t : State} → Run frame s t → IsSorted s → IsSorted t
  unfolding ipv4_node_process ipv6_node_process tx_node_process drop_node_process
  Run-IsSorted {s} (run_l2 n) h = l2-IsSorted s h
  Run-IsSorted {s} (run_ipv4 n) h =
      ground (arith, All-append Ip s.tx s.ipv4 h.tx (All-Ip_left s.ipv4 h.ipv4))
  Run-IsSorted {s} (run_ipv6 n) h =
      ground (arith, All-append Ip s.tx s.ipv6 h.tx (All-Ip_right s.ipv6 h.ipv6))
  Run-IsSorted {s} (run_tx taken le n) h = ground (
    arith,
    All-append Ip s.sent (take taken s.tx) h.sent (All-take Ip taken s.tx h.tx),
    All-append Ip s.sent s.tx h.sent h.tx,
  )
  Run-IsSorted {s} (run_drop n) h = ground arith

  rx-IsSorted :
      (s : State) (pkts : List ℕ)
      → IsQuiet s
      → length pkts ≤ 32
      → IsSorted s
      → IsSorted (rx_node_process s pkts)
  unfolding rx_node_process
  rx-IsSorted s pkts q le h = ground (arith, length-append s.l2 pkts)

  -- In every reachable state only IPv4 packets wait at the IPv4 node, only IPv6 packets at the IPv6
  -- node, only others at the drop node, and only IPv4 and IPv6 packets wait for transmission or were
  -- sent.
  pub Reach-IsSorted : {got : List ℕ} {s : State} → Reach frame got s → IsSorted s
  Reach-IsSorted start = record {
    ipv4 = tt;
    ipv6 = tt;
    dropped = tt;
    tx = tt;
    sent = tt;
    l2_bound = omega arith;
  }
  Reach-IsSorted (receive {s = s} pkts r q le) = rx-IsSorted s pkts q le (Reach-IsSorted r)
  Reach-IsSorted (run r st) = Run-IsSorted st (Reach-IsSorted r)

  -- The counters of `l2_node_process` add up to the packets that it is given, and in a reachable
  -- state none of its arrays of 32 entries is overrun.
  pub l2_arrays_bound :
      {got : List ℕ} {s : State}
      → Reach frame got s
      → let p = split_all frame no_split s.l2 in
        (length p.v4 + length p.v6 + length p.d ≡ length s.l2)
        × (length p.v4 ≤ 32)
        × (length p.v6 ≤ 32)
        × (length p.d ≤ 32)
  l2_arrays_bound {s = s} r =
      let h : IsSorted s = Reach-IsSorted r in
      omega (arith, split_all-length no_split s.l2, h.l2_bound)
