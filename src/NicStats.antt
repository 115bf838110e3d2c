-- ===== src/NicStats.antt =====
-- nic_stats/sample: the pipeline of thread_parsing/threaded_project without its parser, which prints its
-- totals and the statistics of the port when its threads have returned.
pub mod Xstats
pub mod Results
mod Tests
use dpdk_starter.Base.{
  ℕ, zero, suc, ◌≤◌, ◌≡◌, Option, none, some, List, [], ◌∷◌, ◌++◌, map, length, leb, replicate,
  take, if◌then◌else◌,
}
use dpdk_starter.Ring.{RingApi}
use dpdk_starter.ThreadedPipeline
use dpdk_starter.ThreadedPipeline.{State}

-- A line of the output. In `xstat` a part is `none` where the array was not written.
pub data Line : Type 0 where
  results_header eth_header xstats_header : Line
  rx_total parser_total tx_total : ℕ → Line
  rx_packets tx_packets rx_bytes tx_bytes rx_dropped rx_errors tx_errors : ℕ → Line
  xstat : Option ℕ → Option ℕ → Line
  no_stats no_count no_names no_xstats : Line

-- The three loops are those of thread_parsing/threaded_project, of which rx.c and tx.c are copies, and
-- parser.c one without the call of `parse_packet`.
module _ (api : RingApi) where
  abbrev pub rx_receive : State api → List ℕ → State api
  rx_receive = ThreadedPipeline.rx_receive api

  abbrev pub rx_enqueue : State api → ℕ → List ℕ → State api
  rx_enqueue = ThreadedPipeline.rx_enqueue api

  abbrev pub rx_check : State api → State api
  rx_check = ThreadedPipeline.rx_check api

  abbrev pub parser_dequeue : State api → State api
  parser_dequeue = ThreadedPipeline.parser_dequeue api

  abbrev pub parser_forward : State api → List ℕ → State api
  parser_forward = ThreadedPipeline.parser_forward api

  abbrev pub tx_dequeue : State api → State api
  tx_dequeue = ThreadedPipeline.tx_dequeue api

  abbrev pub tx_send : State api → List ℕ → ℕ → State api
  tx_send = ThreadedPipeline.tx_send api

  -- Behind `rte_eal_mp_wait_lcore`.
  abbrev pub pipeline_results : State api → List Line
  pipeline_results s =
      results_header ∷ rx_total s.rx_count ∷ parser_total s.parser_count ∷ tx_total s.tx_count ∷ []

-- `struct rte_eth_stats`
pub record EthStats : Type 0 where
  pub ipackets : ℕ
  pub opackets : ℕ
  pub ibytes : ℕ
  pub obytes : ℕ
  pub imissed : ℕ
  pub ierrors : ℕ
  pub oerrors : ℕ

-- `print_eth_stats`, with what `rte_eth_stats_get` returns.
unfoldable pub print_eth_stats : Option EthStats → List Line
print_eth_stats none = no_stats ∷ []
print_eth_stats (some stats) =
    eth_header
    ∷ rx_packets stats.ipackets
    ∷ tx_packets stats.opackets
    ∷ rx_bytes stats.ibytes
    ∷ tx_bytes stats.obytes
    ∷ rx_dropped stats.imissed
    ∷ rx_errors stats.ierrors
    ∷ tx_errors stats.oerrors
    ∷ []

-- What the driver answers to the three calls of `print_xstats`, `none` for a negative result: how many
-- there are, and, for the two calls with an array, all entries that it has at that time. The manual: the
-- result is the number of entries; if the array has no room for all of them, its entries are not valid.
pub record Driver : Type 0 where
  pub xstats_count : Option ℕ
  pub names : Option (List ℕ)
  pub xstats : Option (List ℕ)

-- An array of `n` elements behind such a call. `none` is an element without a value that the manual
-- promises: it was not written, or the array was too small and its entries are not valid.
abbrev pub filled : ℕ → List ℕ → List (Option ℕ)
filled n entries =
    if leb (length entries) n
    then take n (map (λ e. some e) entries ++ replicate n none)
    else replicate n none

-- The `for` over the two arrays.
abbrev pub print_entries : List (Option ℕ) → List (Option ℕ) → List Line
print_entries [] values = []
print_entries (n ∷ ns) [] = []
print_entries (n ∷ ns) (v ∷ vs) = xstat n v ∷ print_entries ns vs

-- `print_xstats`
unfoldable pub print_xstats : Driver → List Line
print_xstats d = elim d.xstats_count [
  | none ↦ no_count ∷ []
  | some len ↦ elim d.names [
    | none ↦ no_names ∷ []
    | some names ↦ elim d.xstats [
      | none ↦ no_xstats ∷ []
      | some values ↦ xstats_header ∷ print_entries (filled len names) (filled len values)
    ]
  ]
]
