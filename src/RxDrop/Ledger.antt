-- ===== src/RxDrop/Ledger.antt =====
-- Where every received packet is, by its type.
use dpdk_starter.Base.{
  ℕ, ◌+◌, ◌≡◌, Bool, List, [], ◌∷◌, take, drop, count, count-append, count-take-drop,
  count-le-length, ◌==◌, if◌then◌else◌, arith,
}
use dpdk_starter.Packet.{Mbuf, be16, ether_type_ipv4}
use dpdk_starter.RxDrop.{
  State, rx_node_process, forward_one, forward_all, ipv4_node_process, tx_node_process,
  drop_node_process, Run, run_rx, run_ipv4, run_tx, run_drop, Reach, start, next,
}

-- How often a packet is on the way of the IPv4 packets, and on that of the others.
abbrev pub on_tx_way : ℕ → State → ℕ
on_tx_way a s = count a s.tx + count a s.sent + count a s.lost

abbrev pub on_drop_way : ℕ → State → ℕ
on_drop_way a s = count a s.dropped + count a s.freed

abbrev pub is_ipv4 : (ℕ → Mbuf) → ℕ → Bool
is_ipv4 frame a = be16 (frame a) 12 == ether_type_ipv4

-- Of `n` times, those on the way of the packet's type are all, and those on the other way none.
abbrev Splits : (ℕ → Mbuf) → ℕ → ℕ → State → Type 0
Splits frame a n s =
    (on_tx_way a s ≡ (if is_ipv4 frame a then n else 0))
    × (on_drop_way a s ≡ (if is_ipv4 frame a then 0 else n))

forward_one-Splits :
    (frame : ℕ → Mbuf) (s : State) (m a n : ℕ)
    → Splits frame a n s
    → Splits frame a (n + count a (m ∷ [])) (forward_one frame s m)
unfolding forward_one
forward_one-Splits frame s m a n h =
    ground (arith, h, count-append a s.tx (m ∷ []), count-append a s.dropped (m ∷ []))

forward_all-Splits :
    (frame : ℕ → Mbuf) (s : State) (ms : List ℕ) (a n : ℕ)
    → Splits frame a n s
    → Splits frame a (n + count a ms) (forward_all frame s ms)
unfolding forward_all
forward_all-Splits frame s [] a n h = ground (arith, h)
forward_all-Splits frame s (m ∷ ms) a n h = ground (
  arith,
  forward_one-Splits frame s m a n h,
  forward_all-Splits frame (forward_one frame s m) ms a (n + count a (m ∷ [])),
)

forward_all-ipv4 :
    (frame : ℕ → Mbuf) (s : State) (ms : List ℕ) → (forward_all frame s ms).ipv4 ≡ s.ipv4
unfolding forward_all forward_one
forward_all-ipv4 frame s [] = ground arith
forward_all-ipv4 frame s (m ∷ ms) =
    ground (arith, forward_all-ipv4 frame (forward_one frame s m) ms)

-- `n` counts the packets that have left the stream of `ipv4_node`.
Run-Splits :
    {frame : ℕ → Mbuf} {s : State} {pkts : List ℕ} {t : State}
    → Run frame s pkts t
    → (a n : ℕ) → Splits frame a n s
    → (k : ℕ) × (k + count a t.ipv4 ≡ n + count a s.ipv4 + count a pkts) × Splits frame a k t
unfolding rx_node_process ipv4_node_process tx_node_process drop_node_process
Run-Splits {frame} {s} (run_rx pkts e f g) a n h =
    (n, ground (arith, h, count-append a s.ipv4 pkts, count-le-length a pkts), ground (arith, h))
Run-Splits {frame} {s} (run_ipv4 e) a n h = (
  n + count a s.ipv4,
  ground (arith, forward_all-ipv4 frame (record s { ipv4 = [] }) s.ipv4),
  forward_all-Splits frame (record s { ipv4 = [] }) s.ipv4 a n h,
)
Run-Splits {frame} {s} (run_tx taken le e) a n h = (
  n,
  omega arith,
  ground (
    arith,
    h,
    count-append a s.sent (take taken s.tx),
    count-append a s.lost (drop taken s.tx),
    count-take-drop a taken s.tx,
  ),
)
Run-Splits {frame} {s} (run_drop e) a n h =
    (n, omega arith, ground (arith, h, count-append a s.freed s.dropped))

Reach-Splits :
    {frame : ℕ → Mbuf} {got : List ℕ} {s : State}
    → Reach frame got s
    → (a : ℕ) → (n : ℕ) × (n + count a s.ipv4 ≡ count a got) × Splits frame a n s
Reach-Splits {frame} start a = (0, omega arith, ground arith)
Reach-Splits {frame} (next {got} {pkts} r st) a =
    let (n, e, h) = Reach-Splits r a in
    let (k, f, i) = Run-Splits st a n h in (k, omega (arith, e, f, count-append a got pkts), i)

-- However lib/graph orders the nodes, as soon as the streams of the nodes are empty, every received
-- packet that is not IPv4 has been freed as often as it was received and never sent, and every IPv4
-- packet has been sent or lost, together as often as it was received, and never freed.
pub Reach-drained :
    {frame : ℕ → Mbuf} {got : List ℕ} {s : State}
    → Reach frame got s
    → s.ipv4 ≡ []
    → s.tx ≡ []
    → s.dropped ≡ []
    → (a : ℕ)
    → (count a s.sent + count a s.lost ≡ (if is_ipv4 frame a then count a got else 0))
      × (count a s.freed ≡ (if is_ipv4 frame a then 0 else count a got))
Reach-drained {frame} r e f g a = let (n, k, h) = Reach-Splits r a in ground (arith, k, h)
