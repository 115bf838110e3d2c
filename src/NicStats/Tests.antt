-- ===== src/NicStats/Tests.antt =====
-- A run that ends with ten packets in the first ring, and answers of the driver.
use dpdk_starter.Base.{
  ℕ, ◌+◌, ◌≤◌, ◌≡◌, ◌↔◌, ◌⊎◌, refl, true, false, none, some, List, [], ◌∷◌, length, arith,
}
use dpdk_starter.Ring.{RingApi}
use dpdk_starter.Ring.Bounded.{ring_of, enqueue_refused}
use dpdk_starter.ThreadedPipeline.{
  State, returned, receive, queue, check, parser_quit, tx_quit, Reach, here, next, launch,
  rx_receive, rx_enqueue, rx_check,
}
use dpdk_starter.NicStats.{
  results_header, rx_total, parser_total, tx_total, pipeline_results, xstats_header, xstat,
  no_count, no_names, no_xstats, Driver, print_xstats,
}
use dpdk_starter.NicStats.Xstats.{any_stale, IsListing, print_xstats_lem}
use dpdk_starter.NicStats.Results.{pipeline_results_lem}

abbrev rings : RingApi
rings = ring_of 1023

abbrev ten : List ℕ
ten = (1 ∷ 2 ∷ 3 ∷ 4 ∷ 5 ∷ 6 ∷ 7 ∷ 8 ∷ 9 ∷ 10 ∷ [])

abbrev ended : State rings
ended = record (launch rings [] []) {
  force_quit = true;
  rx_count = 10;
  rx_to_parse = ten;
  rx = returned;
  parser = returned;
  tx = returned;
}

reach_end : Reach rings (launch rings [] []) ten ended
unfolding rx_receive rx_enqueue rx_check
reach_end =
    next
      (next
        (next
          (next
            (next
              (next
                (next
                  (next
                    (next
                      (next
                        (next
                          (next
                            (next
                              (next here (
                                receive (1 ∷ 2 ∷ 3 ∷ 4 ∷ 5 ∷ 6 ∷ 7 ∷ 8 ∷ 9 ∷ 10 ∷ []) refl refl
                                  (omega arith)))
                              (queue 1 (2 ∷ 3 ∷ 4 ∷ 5 ∷ 6 ∷ 7 ∷ 8 ∷ 9 ∷ 10 ∷ []) refl))
                            (queue 2 (3 ∷ 4 ∷ 5 ∷ 6 ∷ 7 ∷ 8 ∷ 9 ∷ 10 ∷ []) refl))
                          (queue 3 (4 ∷ 5 ∷ 6 ∷ 7 ∷ 8 ∷ 9 ∷ 10 ∷ []) refl))
                        (queue 4 (5 ∷ 6 ∷ 7 ∷ 8 ∷ 9 ∷ 10 ∷ []) refl))
                      (queue 5 (6 ∷ 7 ∷ 8 ∷ 9 ∷ 10 ∷ []) refl))
                    (queue 6 (7 ∷ 8 ∷ 9 ∷ 10 ∷ []) refl))
                  (queue 7 (8 ∷ 9 ∷ 10 ∷ []) refl))
                (queue 8 (9 ∷ 10 ∷ []) refl))
              (queue 9 (10 ∷ []) refl))
            (queue 10 [] refl))
          (check refl))
        (parser_quit refl refl))
      (tx_quit refl refl)

pipeline_results_lem_example :
    (rx parser tx : ℕ) × (pipeline_results rings ended
      ≡ results_header ∷ rx_total rx ∷ parser_total parser ∷ tx_total tx ∷ [])
    × (rx ≡ length ten)
    × (10 ≤ rx)
    × (rx ≤ 41)
    × (parser + length (ended.rx_to_parse) ≡ rx)
    × (tx + length (ended.parse_to_tx) + length ended.parser_freed ≡ parser)
pipeline_results_lem_example =
    pipeline_results_lem rings (enqueue_refused 1023) refl refl reach_end refl refl refl

-- A statistic more than was counted at first: the array of values has no room for the three, and none
-- of its entries is valid.
abbrev grown : Driver
grown = record {
  xstats_count = some 2;
  names = some (1 ∷ 2 ∷ []);
  xstats = some (10 ∷ 20 ∷ 30 ∷ []);
}

grown_printed : print_xstats grown ≡ xstats_header ∷ xstat (some 1) none ∷ xstat (some 2) none ∷ []
unfolding print_xstats
grown_printed = refl

print_xstats_lem_example :
    (grown.xstats_count ≡ none → print_xstats grown ≡ no_count ∷ [])
    × ((len : ℕ)
        → grown.xstats_count ≡ some len
        → grown.names ≡ none
        → print_xstats grown ≡ no_names ∷ [])
    × ((len : ℕ) (ns : List ℕ)
        → grown.xstats_count ≡ some len
        → grown.names ≡ some ns
        → grown.xstats ≡ none
        → print_xstats grown ≡ no_xstats ∷ [])
    × ((len : ℕ) (ns vs : List ℕ)
        → grown.xstats_count ≡ some len
        → grown.names ≡ some ns
        → grown.xstats ≡ some vs
        → IsListing (print_xstats grown) len ns vs
          × (any_stale (print_xstats grown) ≡ false
              ↔ (len ≡ 0) ⊎ ((length ns ≡ len) × (length vs ≡ len))))
print_xstats_lem_example = print_xstats_lem grown
