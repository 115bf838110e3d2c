-- ===== src/ThreadedPipeline/Quitting.antt =====
-- When the receiver returns.
use dpdk_starter.Base.{◌≤◌, ◌≡◌, true, List, [], ◌∷◌, ℕ, arith}
use dpdk_starter.Ring.{RingApi}
use dpdk_starter.ThreadedPipeline.{
  returned, State, Step, receive, rx_quit, queue, check, take_parse, parser_quit, forward, take_tx,
  tx_quit, send, Reach, here, next, launch, rx_receive, rx_enqueue, rx_check, parser_dequeue,
  parser_forward, tx_dequeue, tx_send,
}

module _ (api : RingApi) where
  -- `force_quit` is set once ten packets are counted, and the receiver returns only then.
  pub record IsQuit (s : State api) : Type 0 where
    pub enough : s.force_quit ≡ true → 10 ≤ s.rx_count
    pub told : s.rx ≡ returned → s.force_quit ≡ true

  Step-IsQuit :
      {s : State api} {pkts : List ℕ} {t : State api} → Step api s pkts t → IsQuit s → IsQuit t
  unfolding rx_receive rx_enqueue rx_check parser_dequeue parser_forward tx_dequeue tx_send
  Step-IsQuit (receive pkts e q le) h = ground arith
  Step-IsQuit (rx_quit e q) h = ground arith
  Step-IsQuit (queue m rest e) h = ground arith
  Step-IsQuit (check e) h = ground arith
  Step-IsQuit (take_parse e q) h = ground arith
  Step-IsQuit (parser_quit e q) h = ground arith
  Step-IsQuit (forward [] e) h = ground arith
  Step-IsQuit (forward (m ∷ rest) e) h = ground arith
  Step-IsQuit (take_tx e q) h = ground arith
  Step-IsQuit (tx_quit e q) h = ground arith
  Step-IsQuit (send [] k e le) h = ground arith
  Step-IsQuit (send (m ∷ rest) k e le) h = ground arith

  pub Reach-IsQuit :
      {r₁ r₂ : api.Ring} {got : List ℕ} {t : State api}
      → Reach api (launch api r₁ r₂) got t
      → IsQuit t
  Reach-IsQuit here = ground arith
  Reach-IsQuit (next r st) = Step-IsQuit st (Reach-IsQuit r)
