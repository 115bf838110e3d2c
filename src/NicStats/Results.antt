-- ===== src/NicStats/Results.antt =====
-- What the totals that are printed at the end say.
use dpdk_starter.Base.{ℕ, ◌+◌, ◌≤◌, ◌≡◌, refl, false, List, [], ◌∷◌, length, arith}
use dpdk_starter.Ring.{RingApi}
use dpdk_starter.ThreadedPipeline.{returned, State, Reach, launch, Place}
use dpdk_starter.ThreadedPipeline.Conservation.{in_hand}
use dpdk_starter.ThreadedPipeline.Quitting.{Reach-IsQuit}
use dpdk_starter.ThreadedPipeline.Bounds.{Reach-IsCounted}
use dpdk_starter.NicStats.{results_header, rx_total, parser_total, tx_total, pipeline_results}

in_hand-returned : (p : Place) → p ≡ returned → length (in_hand p) ≡ 0
in_hand-returned p e = rw e

module _ (api : RingApi) where
  open api use {items}

  module _
      (roomy : (r : api.Ring) (x : ℕ)
        → (api.enqueue r x).0 ≡ false
        → 1023 ≤ length (api.items r)) where
    -- From the launch with empty rings that refuse an object only when they hold 1023, in every
    -- interleaving: when the three threads have returned, the receiver's total that is printed is the
    -- number of packets received, between 10 and 41; the parser's total falls short of it by the packets
    -- that are left in the first ring, and the sender's total of the parser's by those left in the second
    -- and those that the parser freed.
    pub pipeline_results_lem :
        {r₁ r₂ : api.Ring} {got : List ℕ} {t : State api}
        → items r₁ ≡ []
        → items r₂ ≡ []
        → Reach api (launch api r₁ r₂) got t
        → t.rx ≡ returned
        → t.parser ≡ returned
        → t.tx ≡ returned
        → (rx parser tx : ℕ) × (pipeline_results api t
            ≡ results_header ∷ rx_total rx ∷ parser_total parser ∷ tx_total tx ∷ [])
          × (rx ≡ length got)
          × (10 ≤ rx)
          × (rx ≤ 41)
          × (parser + length (items t.rx_to_parse) ≡ rx)
          × (tx + length (items t.parse_to_tx) + length t.parser_freed ≡ parser)
    pipeline_results_lem {got} {t} e₁ e₂ r on two three =
        let c = Reach-IsCounted api roomy e₁ e₂ r in
        let q = Reach-IsQuit api r in
        let a = in_hand-returned t.rx on in
        let b = in_hand-returned t.parser two in
        let d = in_hand-returned t.tx three in
        (
          t.rx_count,
          t.parser_count,
          t.tx_count,
          refl,
          c.received,
          q.enough (q.told on),
          omega (arith, c.received, c.limit),
          omega (arith, c.received, c.parsed, a, b),
          omega (arith, c.passed, d),
        )
