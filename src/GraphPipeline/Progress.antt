-- ===== src/GraphPipeline/Progress.antt =====
-- A walk ends: each node that runs brings the packets nearer to the end of the graph.
use dpdk_starter.Base.{
  ℕ, suc, ◌+◌, ◌*◌, ◌≤◌, ◌<◌, ◌≡◌, ◌≢◌, ◌⊎◌, inl, inr, refl, List, [], ◌∷◌, length, length-append,
  arith,
}
use dpdk_starter.Packet.{Mbuf}
use dpdk_starter.GraphPipeline.{
  State, Split, rx_node_process, split_all, no_split, l2_node_process, ipv4_node_process,
  ipv6_node_process, tx_node_process, drop_node_process, IsQuiet, Run, run_l2, run_ipv4, run_ipv6,
  run_tx, run_drop,
}
use dpdk_starter.GraphPipeline.Sorting.{split_all-length}

-- How many node visits the packets in the streams may still need.
abbrev pub visits_left : State → ℕ
visits_left s =
    3 * length s.l2 + 2 * length s.ipv4 + 2 * length s.ipv6 + length s.tx + length s.dropped

length_pos : (xs : List ℕ) → xs ≢ [] → 0 < length xs
length_pos [] h = absurd (h refl)
length_pos (x ∷ xs) h = omega arith

l2-visits_left :
    (frame : ℕ → Mbuf) (s : State)
    → s.l2 ≢ []
    → visits_left (l2_node_process frame s) < visits_left s
unfolding l2_node_process
l2-visits_left frame s h =
    let p : Split = split_all frame no_split s.l2 in
    ground (
      arith,
      length_pos s.l2 h,
      split_all-length frame no_split s.l2,
      length-append s.ipv4 p.v4,
      length-append s.ipv6 p.v6,
      length-append s.dropped p.d,
    )

Run-visits_left : {frame : ℕ → Mbuf} {s t : State} → Run frame s t → visits_left t < visits_left s
unfolding ipv4_node_process ipv6_node_process tx_node_process drop_node_process
Run-visits_left {frame} {s} (run_l2 h) = l2-visits_left frame s h
Run-visits_left {frame} {s} (run_ipv4 h) =
    omega (arith, length_pos s.ipv4 h, length-append s.tx s.ipv4)
Run-visits_left {frame} {s} (run_ipv6 h) =
    omega (arith, length_pos s.ipv6 h, length-append s.tx s.ipv6)
Run-visits_left {frame} {s} (run_tx taken le h) = ground (arith, length_pos s.tx h)
Run-visits_left {frame} {s} (run_drop h) = omega (arith, length_pos s.dropped h)

-- `n` nodes run one after another.
pub data Runs (frame : ℕ → Mbuf) (s : State) : ℕ → State → Type 0 where
  done : Runs frame s 0 s
  next : {n : ℕ} {t u : State} → Runs frame s n t → Run frame t u → Runs frame s (suc n) u

Runs-visits_left :
    {frame : ℕ → Mbuf} {s t : State} {n : ℕ} → Runs frame s n t → n + visits_left t ≤ visits_left s
Runs-visits_left done = omega arith
Runs-visits_left (next r st) = omega (arith, Runs-visits_left r, Run-visits_left st)

-- A graph that is not quiet has a node that can run.
pub IsQuiet-or-Run : (frame : ℕ → Mbuf) (s : State) → IsQuiet s ⊎ ((t : State) × Run frame s t)
IsQuiet-or-Run frame s = elim (empty-or s.l2) [
  | inr h ↦ inr (l2_node_process frame s, run_l2 h)
  | inl l2 ↦ elim (empty-or s.ipv4) [
    | inr h ↦ inr (ipv4_node_process s, run_ipv4 h)
    | inl ipv4 ↦ elim (empty-or s.ipv6) [
      | inr h ↦ inr (ipv6_node_process s, run_ipv6 h)
      | inl ipv6 ↦ elim (empty-or s.tx) [
        | inr h ↦ inr (tx_node_process s 0, run_tx 0 (omega arith) h)
        | inl tx ↦ elim (empty-or s.dropped) [
          | inr h ↦ inr (drop_node_process s, run_drop h)
          | inl dropped ↦ inl (l2, ipv4, ipv6, tx, dropped)
        ]
      ]
    ]
  ]
]
  where
    empty-or : (xs : List ℕ) → (xs ≡ []) ⊎ (xs ≢ [])
    empty-or [] = inl refl
    empty-or (x ∷ xs) = inr (λ e. cc)

-- After a burst of at most 32 packets at a quiet graph, at most 96 nodes run, in whatever order, and
-- when no node can run any more the graph is quiet: every walk ends, with all packets processed.
pub walk_ends :
    {frame : ℕ → Mbuf} (s : State) {t : State} {n : ℕ} (pkts : List ℕ)
    → IsQuiet s
    → length pkts ≤ 32
    → Runs frame (rx_node_process s pkts) n t
    → (n ≤ 96) × (¬ ((u : State) × Run frame t u) → IsQuiet t)
unfolding rx_node_process
walk_ends {frame} s {t} pkts q le r = (
  ground (arith, Runs-visits_left r, length-append s.l2 pkts),
  λ stuck. elim (IsQuiet-or-Run frame t) [ inl quiet ↦ quiet | inr more ↦ absurd (stuck more) ],
)
