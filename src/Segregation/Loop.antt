-- ===== src/Segregation/Loop.antt =====
-- control_data_segregation/main.c: one round of the `while (1)` of `main`, over any ring.
-- `frame` gives the packet memory behind an mbuf's address. What the driver does in a round comes in
-- as an event: the burst received, how many packets each `rte_eth_tx_burst` takes, and the clock.
pub mod Ledger
pub mod Sorting
pub mod Counters
use dpdk_starter.Base.{
  ℕ, ◌+◌, ◌-◌, List, [], ◌∷◌, ◌++◌, length, take, drop, ltb, ◌==◌, if◌then◌else◌, u64,
}
use dpdk_starter.Packet.{Mbuf}
use dpdk_starter.Ring.{RingApi}
use dpdk_starter.Segregation.Classify.{classify_packet}

abbrev pub burst_size : ℕ
burst_size = 32

-- `2e9`: the difference of the clocks is compared as a double, which is exact at this bound.
abbrev pub stats_interval : ℕ
stats_interval = 2_000_000_000

pub record Event : Type 0 where
  pub received : List ℕ
  pub taken_control : ℕ
  pub taken_data : ℕ
  pub now : ℕ

module _ (api : RingApi) where
  open api use {Ring, enqueue, dequeue_burst}

  -- `freed` and `sent` log the calls of `rte_pktmbuf_free` and what the driver took; `unsent` are
  -- the packets that `rte_eth_tx_burst` did not take. `printed` logs the statistics lines.
  pub record State : Type 0 where
    pub control_ring : Ring
    pub data_ring : Ring
    pub control_count : ℕ  -- uint64_t
    pub data_count : ℕ  -- uint64_t
    pub last_ts : ℕ  -- uint64_t
    pub freed : List ℕ
    pub sent : List ℕ
    pub unsent : List ℕ
    pub printed : List (ℕ × ℕ)

  -- The body of the `for` over the burst.
  unfoldable pub dispatch : (ℕ → Mbuf) → State → ℕ → State
  dispatch frame s m =
      if classify_packet (frame m)
      then (let (done, r) = enqueue s.control_ring m in
          if done
          then record s { control_ring = r; control_count = u64 (s.control_count + 1) }
          else record s { control_ring = r; freed = m ∷ s.freed })
      else (let (done, r) = enqueue s.data_ring m in
          if done
          then record s { data_ring = r; data_count = u64 (s.data_count + 1) }
          else record s { data_ring = r; freed = m ∷ s.freed })

  unfoldable pub dispatch_all : (ℕ → Mbuf) → State → List ℕ → State
  dispatch_all frame s [] = s
  dispatch_all frame s (m ∷ ms) = dispatch_all frame (dispatch frame s m) ms

  -- `n = rte_ring_dequeue_burst(...); if (n > 0) rte_eth_tx_burst(...)`, for each ring.
  unfoldable pub drain_control : State → ℕ → State
  drain_control s taken =
      let (out, r) = dequeue_burst s.control_ring burst_size in
      if ltb 0 (length out)
      then record s {
        control_ring = r;
        sent = s.sent ++ take taken out;
        unsent = s.unsent ++ drop taken out;
      }
      else record s { control_ring = r }

  unfoldable pub drain_data : State → ℕ → State
  drain_data s taken =
      let (out, r) = dequeue_burst s.data_ring burst_size in
      if ltb 0 (length out)
      then record s {
        data_ring = r;
        sent = s.sent ++ take taken out;
        unsent = s.unsent ++ drop taken out;
      }
      else record s { data_ring = r }

  -- The statistics about every two seconds; the subtraction wraps.
  unfoldable pub report : State → ℕ → State
  report s now =
      let start = if s.last_ts == 0 then now else s.last_ts in
      if ltb stats_interval (u64 (now + 18446744073709551616 - start))
      then record s { last_ts = now; printed = (s.control_count, s.data_count) ∷ s.printed }
      else record s { last_ts = start }

  unfoldable pub round : (ℕ → Mbuf) → State → Event → State
  round frame s e =
      report
        (drain_data (drain_control (dispatch_all frame s e.received) e.taken_control) e.taken_data)
        e.now

  unfoldable pub run : (ℕ → Mbuf) → State → List Event → State
  run frame s [] = s
  run frame s (e ∷ es) = run frame (round frame s e) es
