-- ===== src/GraphPipeline.antt =====
-- graph/pipeline/pipeline.c: the six nodes of the graph, and the walks of lib/graph over them.
-- A node that processes its stream takes all of it. lib/graph is not part of the repository: all
-- that is assumed of `rte_graph_walk` is that a walk starts with the source node, runs only nodes
-- with objects in their stream, in any order, and ends when there is none.
pub mod Conservation
pub mod Sorting
pub mod Progress
mod Tests
use dpdk_starter.Base.{
  ℕ, ◌≤◌, ◌≡◌, ◌≢◌, Bool, true, false, Option, none, some, List, [], ◌∷◌, ◌++◌, length, take, drop,
  ltb, ◌==◌, if◌then◌else◌,
}
use dpdk_starter.Packet.{Mbuf, be16, ether_type_ipv4, ether_type_ipv6}

abbrev pub burst : ℕ
burst = 32

pub data Node : Type 0 where
  rx_node l2_node ipv4_node ipv6_node tx_node drop_node : Node

-- `next_nodes` of the registrations.
abbrev pub next_node : Node → ℕ → Option Node
next_node rx_node edge = if edge == 0 then some l2_node else none
next_node l2_node edge =
    if edge == 0
    then some ipv4_node
    else if edge == 1
    then some ipv6_node
    else if edge == 2
    then some drop_node
    else none
next_node ipv4_node edge = if edge == 0 then some tx_node else none
next_node ipv6_node edge = if edge == 0 then some tx_node else none
next_node tx_node edge = none
next_node drop_node edge = none

-- The streams of the nodes, and the logs of what the driver took and of `rte_pktmbuf_free`.
pub record State : Type 0 where
  pub l2 : List ℕ
  pub ipv4 : List ℕ
  pub ipv6 : List ℕ
  pub tx : List ℕ
  pub dropped : List ℕ
  pub sent : List ℕ
  pub freed : List ℕ

abbrev pub append_stream : State → Node → List ℕ → State
append_stream s rx_node objs = s
append_stream s l2_node objs = record s { l2 = s.l2 ++ objs }
append_stream s ipv4_node objs = record s { ipv4 = s.ipv4 ++ objs }
append_stream s ipv6_node objs = record s { ipv6 = s.ipv6 ++ objs }
append_stream s tx_node objs = record s { tx = s.tx ++ objs }
append_stream s drop_node objs = record s { dropped = s.dropped ++ objs }

-- `rte_node_enqueue`, of lib/graph: the objects are put behind the stream of the edge's node.
abbrev pub rte_node_enqueue : State → Node → ℕ → List ℕ → State
rte_node_enqueue s node edge objs = elim (next_node node edge) [
  | none ↦ s
  | some next ↦ append_stream s next objs
]

-- `pkts` is what `rte_eth_rx_burst` stored.
unfoldable pub rx_node_process : State → List ℕ → State
rx_node_process s pkts = if ltb 0 (length pkts) then rte_node_enqueue s rx_node 0 pkts else s

-- The three arrays of `l2_node_process`, each up to its counter.
pub record Split : Type 0 where
  pub v4 : List ℕ
  pub v6 : List ℕ
  pub d : List ℕ

unfoldable pub split_one : (ℕ → Mbuf) → Split → ℕ → Split
split_one frame p m =
    let eth_type = be16 (frame m) 12 in
    if eth_type == ether_type_ipv4
    then record p { v4 = p.v4 ++ (m ∷ []) }
    else if eth_type == ether_type_ipv6
    then record p { v6 = p.v6 ++ (m ∷ []) }
    else record p { d = p.d ++ (m ∷ []) }

unfoldable pub split_all : (ℕ → Mbuf) → Split → List ℕ → Split
split_all frame p [] = p
split_all frame p (m ∷ ms) = split_all frame (split_one frame p m) ms

abbrev pub no_split : Split
no_split = record { v4 = []; v6 = []; d = [] }

-- `if (v4) rte_node_enqueue(...)`, for one array.
abbrev pub enqueue_some : State → ℕ → List ℕ → State
enqueue_some s edge objs = if ltb 0 (length objs) then rte_node_enqueue s l2_node edge objs else s

unfoldable pub l2_node_process : (ℕ → Mbuf) → State → State
l2_node_process frame s =
    let p = split_all frame no_split s.l2 in
    enqueue_some (enqueue_some (enqueue_some (record s { l2 = [] }) 0 p.v4) 1 p.v6) 2 p.d

unfoldable pub ipv4_node_process : State → State
ipv4_node_process s = rte_node_enqueue (record s { ipv4 = [] }) ipv4_node 0 s.ipv4

unfoldable pub ipv6_node_process : State → State
ipv6_node_process s = rte_node_enqueue (record s { ipv6 = [] }) ipv6_node 0 s.ipv6

-- `taken` packets are taken by `rte_eth_tx_burst`; the others are freed.
unfoldable pub tx_node_process : State → ℕ → State
tx_node_process s taken =
    if ltb taken (length s.tx)
    then record s { tx = []; sent = s.sent ++ take taken s.tx; freed = s.freed ++ drop taken s.tx }
    else record s { tx = []; sent = s.sent ++ s.tx }

unfoldable pub drop_node_process : State → State
drop_node_process s = record s { dropped = []; freed = s.freed ++ s.dropped }

-- No node has objects in its stream: between two walks.
abbrev pub IsQuiet : State → Type 0
IsQuiet s = (s.l2 ≡ []) × (s.ipv4 ≡ []) × (s.ipv6 ≡ []) × (s.tx ≡ []) × (s.dropped ≡ [])

-- A node other than the source runs.
pub data Run (frame : ℕ → Mbuf) (s : State) : State → Type 0 where
  run_l2 : s.l2 ≢ [] → Run frame s (l2_node_process frame s)
  run_ipv4 : s.ipv4 ≢ [] → Run frame s (ipv4_node_process s)
  run_ipv6 : s.ipv6 ≢ [] → Run frame s (ipv6_node_process s)
  run_tx : (taken : ℕ) → taken ≤ length s.tx → s.tx ≢ [] → Run frame s (tx_node_process s taken)
  run_drop : s.dropped ≢ [] → Run frame s (drop_node_process s)

abbrev pub empty : State
empty = record { l2 = []; ipv4 = []; ipv6 = []; tx = []; dropped = []; sent = []; freed = [] }

-- The states that the main loop can reach, with all packets received so far.
pub data Reach (frame : ℕ → Mbuf) : List ℕ → State → Type 0 where
  start : Reach frame [] empty
  receive :
      {got : List ℕ} {s : State} (pkts : List ℕ)
      → Reach frame got s
      → IsQuiet s
      → length pkts ≤ burst
      → Reach frame (got ++ pkts) (rx_node_process s pkts)
  run : {got : List ℕ} {s t : State} → Reach frame got s → Run frame s t → Reach frame got t
