-- ===== src/RxDrop.antt =====
-- graph/rx_drop_sample/sample/main.c: the four nodes of the graph and the walks over them, with the
-- assumptions on lib/graph of GraphPipeline.antt.
pub mod Ledger
mod Tests
use dpdk_starter.Base.{
  ℕ, ◌≤◌, ◌≡◌, ◌≢◌, Bool, true, false, ◌||◌, List, [], ◌∷◌, ◌++◌, length, take, drop, ltb, ◌==◌,
  if◌then◌else◌,
}
use dpdk_starter.Packet.{Mbuf, be16, ether_type_ipv4}

-- The streams, the logs of what the driver took and of `rte_pktmbuf_free`, and the packets that
-- `tx_node_process` drops from its stream although the driver did not take them.
pub record State : Type 0 where
  pub ipv4 : List ℕ
  pub tx : List ℕ
  pub dropped : List ℕ
  pub sent : List ℕ
  pub freed : List ℕ
  pub lost : List ℕ

abbrev pub empty : State
empty = record { ipv4 = []; tx = []; dropped = []; sent = []; freed = []; lost = [] }

-- `signum` is SIGINT (2) or SIGTERM (15).
unfoldable pub signal_handler : Bool → ℕ → Bool
signal_handler force_quit signum = if signum == 2 || signum == 15 then true else force_quit

-- `pkts` is what `rte_eth_rx_burst` stored.
unfoldable pub rx_node_process : State → List ℕ → State
rx_node_process s pkts = if ltb 0 (length pkts) then record s { ipv4 = s.ipv4 ++ pkts } else s

-- `rte_node_enqueue_x1` to edge 0 or edge 1.
unfoldable pub forward_one : (ℕ → Mbuf) → State → ℕ → State
forward_one frame s m =
    if be16 (frame m) 12 == ether_type_ipv4
    then record s { tx = s.tx ++ (m ∷ []) }
    else record s { dropped = s.dropped ++ (m ∷ []) }

unfoldable pub forward_all : (ℕ → Mbuf) → State → List ℕ → State
forward_all frame s [] = s
forward_all frame s (m ∷ ms) = forward_all frame (forward_one frame s m) ms

unfoldable pub ipv4_node_process : (ℕ → Mbuf) → State → State
ipv4_node_process frame s = forward_all frame (record s { ipv4 = [] }) s.ipv4

-- The result of `rte_eth_tx_burst`, `taken`, is not looked at.
unfoldable pub tx_node_process : State → ℕ → State
tx_node_process s taken = record s {
  tx = [];
  sent = s.sent ++ take taken s.tx;
  lost = s.lost ++ drop taken s.tx;
}

unfoldable pub drop_node_process : State → State
drop_node_process s = record s { dropped = []; freed = s.freed ++ s.dropped }

-- A node runs, with the packets that it receives from the port.
pub data Run (frame : ℕ → Mbuf) (s : State) : List ℕ → State → Type 0 where
  run_rx :
      (pkts : List ℕ)
      → s.ipv4 ≡ []
      → s.tx ≡ []
      → s.dropped ≡ []
      → Run frame s pkts (rx_node_process s pkts)
  run_ipv4 : s.ipv4 ≢ [] → Run frame s [] (ipv4_node_process frame s)
  run_tx : (taken : ℕ) → taken ≤ length s.tx → s.tx ≢ [] → Run frame s [] (tx_node_process s taken)
  run_drop : s.dropped ≢ [] → Run frame s [] (drop_node_process s)

-- The states that the main loop can reach, with all packets received so far.
pub data Reach (frame : ℕ → Mbuf) : List ℕ → State → Type 0 where
  start : Reach frame [] empty
  next :
      {got pkts : List ℕ} {s t : State}
      → Reach frame got s
      → Run frame s pkts t
      → Reach frame (got ++ pkts) t
