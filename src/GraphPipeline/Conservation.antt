-- ===== src/GraphPipeline/Conservation.antt =====
-- Every received packet is in one stream, or sent, or freed.
use dpdk_starter.Base.{
  ℕ, ◌+◌, ◌≡◌, List, [], ◌∷◌, take, drop, count, count-append, count-take-drop, count-le-length,
  arith,
}
use dpdk_starter.Packet.{Mbuf}
use dpdk_starter.GraphPipeline.{
  State, Split, rx_node_process, split_one, split_all, no_split, l2_node_process, ipv4_node_process,
  ipv6_node_process, tx_node_process, drop_node_process, IsQuiet, Run, run_l2, run_ipv4, run_ipv6,
  run_tx, run_drop, Reach, start, receive, run,
}

abbrev pub held : ℕ → State → ℕ
held a s =
    count a s.l2
    + count a s.ipv4
    + count a s.ipv6
    + count a s.tx
    + count a s.dropped
    + count a s.sent
    + count a s.freed

abbrev split_count : ℕ → Split → ℕ
split_count a p = count a p.v4 + count a p.v6 + count a p.d

split_one-count :
    (frame : ℕ → Mbuf) (p : Split) (m a : ℕ)
    → split_count a (split_one frame p m) ≡ split_count a p + count a (m ∷ [])
unfolding split_one
split_one-count frame p m a =
    ground (
      arith,
      count-append a p.v4 (m ∷ []),
      count-append a p.v6 (m ∷ []),
      count-append a p.d (m ∷ []),
    )

split_all-count :
    (frame : ℕ → Mbuf) (p : Split) (ms : List ℕ) (a : ℕ)
    → split_count a (split_all frame p ms) ≡ split_count a p + count a ms
unfolding split_all
split_all-count frame p [] a = omega arith
split_all-count frame p (m ∷ ms) a =
    ground (arith, split_all-count frame (split_one frame p m) ms a, split_one-count frame p m a)

l2-held : (frame : ℕ → Mbuf) (s : State) (a : ℕ) → held a (l2_node_process frame s) ≡ held a s
unfolding l2_node_process
l2-held frame s a =
    let p : Split = split_all frame no_split s.l2 in
    ground (
      arith,
      split_all-count frame no_split s.l2 a,
      count-append a s.ipv4 p.v4,
      count-append a s.ipv6 p.v6,
      count-append a s.dropped p.d,
      count-le-length a p.v4,
      count-le-length a p.v6,
      count-le-length a p.d,
    )

rx-held :
    (s : State) (pkts : List ℕ) (a : ℕ) → held a (rx_node_process s pkts) ≡ held a s + count a pkts
unfolding rx_node_process
rx-held s pkts a = ground (arith, count-append a s.l2 pkts, count-le-length a pkts)

Run-held : {frame : ℕ → Mbuf} {s t : State} → Run frame s t → (a : ℕ) → held a t ≡ held a s
unfolding ipv4_node_process ipv6_node_process tx_node_process drop_node_process
Run-held {frame} {s} (run_l2 h) a = l2-held frame s a
Run-held {frame} {s} (run_ipv4 h) a = omega (arith, count-append a s.tx s.ipv4)
Run-held {frame} {s} (run_ipv6 h) a = omega (arith, count-append a s.tx s.ipv6)
Run-held {frame} {s} (run_tx taken le h) a = ground (
  arith,
  count-append a s.sent (take taken s.tx),
  count-append a s.freed (drop taken s.tx),
  count-append a s.sent s.tx,
  count-take-drop a taken s.tx,
)
Run-held {frame} {s} (run_drop h) a = omega (arith, count-append a s.freed s.dropped)

-- However lib/graph orders the nodes, every received packet stands in the streams and among the
-- packets sent and freed exactly as often as it was received: none is lost, and none is freed twice
-- or sent and freed.
pub Reach-held :
    {frame : ℕ → Mbuf} {got : List ℕ} {s : State}
    → Reach frame got s
    → (a : ℕ) → held a s ≡ count a got
Reach-held start a = omega arith
Reach-held (receive {got = g} {s = s} pkts r q le) a =
    omega (arith, Reach-held r a, rx-held s pkts a, count-append a g pkts)
Reach-held (run r st) a = omega (arith, Reach-held r a, Run-held st a)

-- Between two walks every received packet was sent or freed.
pub Reach-quiet :
    {frame : ℕ → Mbuf} {got : List ℕ} {s : State}
    → Reach frame got s
    → IsQuiet s
    → (a : ℕ) → count a s.sent + count a s.freed ≡ count a got
Reach-quiet r q a = ground (arith, Reach-held r a)
