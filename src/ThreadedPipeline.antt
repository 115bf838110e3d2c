-- ===== src/ThreadedPipeline.antt =====
-- thread_parsing/threaded_project: `rx_loop` (rx.c), `parser_loop` (parser.c) and `tx_loop` (tx.c) as
-- three threads with two rings between them, and the globals of main.c. A step is one call of a ring
-- or of the driver by one thread, with the thread's own work up to its next such call; the threads'
-- steps interleave in any order. What `parse_packet` prints is modelled in PacketParsing.antt.
pub mod Conservation
pub mod Bounds
pub mod Quitting
pub mod Ending
mod Tests
use dpdk_starter.Base.{
  ℕ, ◌+◌, ◌≤◌, ◌≡◌, Bool, true, false, List, [], ◌∷◌, ◌++◌, length, take, drop, leb, if◌then◌else◌,
  u64,
}
use dpdk_starter.Ring.{RingApi}

abbrev pub burst_size : ℕ
burst_size = 32

-- Where a thread stands: at the test of its `while`, with packets in hand, or returned.
pub data Place : Type 0 where
  poll : Place
  busy : List ℕ → Place
  returned : Place

module _ (api : RingApi) where
  open api use {Ring, enqueue, enqueue_burst, dequeue_burst}

  -- `unqueued` are the packets whose `rte_ring_enqueue` failed in `rx_loop`, which ignores it.
  pub record State : Type 0 where
    pub force_quit : Bool
    pub rx_count : ℕ  -- uint64_t
    pub parser_count : ℕ  -- uint64_t
    pub tx_count : ℕ  -- uint64_t
    pub rx_to_parse : Ring
    pub parse_to_tx : Ring
    pub rx : Place
    pub parser : Place
    pub tx : Place
    pub unqueued : List ℕ
    pub parser_freed : List ℕ
    pub tx_freed : List ℕ
    pub sent : List ℕ

  -- `rte_eth_rx_burst` returned `pkts`.
  unfoldable pub rx_receive : State → List ℕ → State
  rx_receive s pkts = record s { rx_count = u64 (s.rx_count + length pkts); rx = busy pkts }

  -- One `rte_ring_enqueue` of the `for`.
  unfoldable pub rx_enqueue : State → ℕ → List ℕ → State
  rx_enqueue s m rest =
      let (done, r) = enqueue s.rx_to_parse m in
      if done
      then record s { rx_to_parse = r; rx = busy rest }
      else record s { rx_to_parse = r; rx = busy rest; unqueued = m ∷ s.unqueued }

  -- `if (rx_count >= 10)`
  unfoldable pub rx_check : State → State
  rx_check s =
      if leb 10 s.rx_count
      then record s { force_quit = true; rx = returned }
      else record s { rx = poll }

  unfoldable pub parser_dequeue : State → State
  parser_dequeue s =
      let (pkts, r) = dequeue_burst s.rx_to_parse burst_size in
      record s { rx_to_parse = r; parser = busy pkts }

  -- `if (n > 0)`: with no packets nothing changes but the thread's place.
  unfoldable pub parser_forward : State → List ℕ → State
  parser_forward s [] = record s { parser = poll }
  parser_forward s (m ∷ rest) =
      let pkts = m ∷ rest in
      let (k, r) = enqueue_burst s.parse_to_tx pkts in
      record s {
        parser_count = u64 (s.parser_count + length pkts);
        parse_to_tx = r;
        parser_freed = s.parser_freed ++ drop k pkts;
        parser = poll;
      }

  unfoldable pub tx_dequeue : State → State
  tx_dequeue s =
      let (pkts, r) = dequeue_burst s.parse_to_tx burst_size in
      record s { parse_to_tx = r; tx = busy pkts }

  -- The driver takes `k` of the packets.
  unfoldable pub tx_send : State → List ℕ → ℕ → State
  tx_send s [] k = record s { tx = poll }
  tx_send s (m ∷ rest) k =
      let pkts = m ∷ rest in
      record s {
        tx_count = u64 (s.tx_count + length pkts);
        sent = s.sent ++ take k pkts;
        tx_freed = s.tx_freed ++ drop k pkts;
        tx = poll;
      }

  -- A step of one thread, with the packets that it receives from the port.
  pub data Step (s : State) : List ℕ → State → Type 0 where
    receive :
        (pkts : List ℕ)
        → s.rx ≡ poll
        → s.force_quit ≡ false
        → length pkts ≤ burst_size
        → Step s pkts (rx_receive s pkts)
    rx_quit : s.rx ≡ poll → s.force_quit ≡ true → Step s [] (record s { rx = returned })
    queue : (m : ℕ) (rest : List ℕ) → s.rx ≡ busy (m ∷ rest) → Step s [] (rx_enqueue s m rest)
    check : s.rx ≡ busy [] → Step s [] (rx_check s)
    take_parse : s.parser ≡ poll → s.force_quit ≡ false → Step s [] (parser_dequeue s)
    parser_quit : s.parser ≡ poll → s.force_quit ≡ true → Step s [] (record s { parser = returned })
    forward : (pkts : List ℕ) → s.parser ≡ busy pkts → Step s [] (parser_forward s pkts)
    take_tx : s.tx ≡ poll → s.force_quit ≡ false → Step s [] (tx_dequeue s)
    tx_quit : s.tx ≡ poll → s.force_quit ≡ true → Step s [] (record s { tx = returned })
    send :
        (pkts : List ℕ) (k : ℕ) → s.tx ≡ busy pkts → k ≤ length pkts → Step s [] (tx_send s pkts k)

  -- The threads start with their counters at 0 and both rings as given.
  abbrev pub launch : Ring → Ring → State
  launch r₁ r₂ = record {
    force_quit = false;
    rx_count = 0;
    parser_count = 0;
    tx_count = 0;
    rx_to_parse = r₁;
    parse_to_tx = r₂;
    rx = poll;
    parser = poll;
    tx = poll;
    unqueued = [];
    parser_freed = [];
    tx_freed = [];
    sent = [];
  }

  -- The states that the threads can reach from `s`, with all packets received on the way.
  pub data Reach (s : State) : List ℕ → State → Type 0 where
    here : Reach s [] s
    next :
        {got pkts : List ℕ} {t u : State} → Reach s got t → Step t pkts u → Reach s (got ++ pkts) u
