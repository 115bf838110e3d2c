-- ===== src/ThreadedPipeline/Conservation.antt =====
-- Where each received packet is, and what the three counters count.
use dpdk_starter.Base.{
  ℕ, ◌+◌, ◌≡◌, List, [], ◌∷◌, take, drop, count, count-append, count-take-drop, arith,
}
use dpdk_starter.Ring.{RingApi}
use dpdk_starter.Ring.Counting.{dequeue_burst-count, enqueue_burst-count}
use dpdk_starter.ThreadedPipeline.{
  Place, poll, busy, returned, State, rx_receive, rx_enqueue, rx_check, parser_dequeue,
  parser_forward, tx_dequeue, tx_send, Step, receive, rx_quit, queue, check, take_parse,
  parser_quit, forward, take_tx, tx_quit, send, Reach, here, next, burst_size,
}

-- The packets that a thread has in hand.
abbrev pub in_hand : Place → List ℕ
in_hand poll = []
in_hand (busy pkts) = pkts
in_hand returned = []

module _ (api : RingApi) where
  open api use {items, enqueue, enqueue_burst, dequeue_burst}
  open api use {items-enqueue_ok, items-enqueue_full, items-enqueue_burst, items-dequeue_burst}

  abbrev pub held : ℕ → State api → ℕ
  held a s =
      count a (in_hand s.rx)
      + count a (items s.rx_to_parse)
      + count a (in_hand s.parser)
      + count a (items s.parse_to_tx)
      + count a (in_hand s.tx)
      + count a s.unqueued
      + count a s.parser_freed
      + count a s.tx_freed
      + count a s.sent

  in_hand_busy : (p : Place) (xs : List ℕ) (a : ℕ) → p ≡ busy xs → count a (in_hand p) ≡ count a xs
  in_hand_busy p xs a e = rw e

  in_hand-poll : (p : Place) (a : ℕ) → p ≡ poll → count a (in_hand p) ≡ 0
  in_hand-poll p a e = rw e

  forward-held :
      (s : State api) (pkts : List ℕ) (a : ℕ)
      → s.parser ≡ busy pkts
      → held a (parser_forward api s pkts) ≡ held a s
  unfolding parser_forward
  forward-held s [] a e = omega (arith, in_hand_busy s.parser [] a e)
  forward-held s (m ∷ rest) a e =
      let pkts : List ℕ = m ∷ rest in
      omega (
        arith,
        in_hand_busy s.parser pkts a e,
        enqueue_burst-count api s.parse_to_tx pkts a,
        count-append a s.parser_freed (drop (enqueue_burst s.parse_to_tx pkts).0 pkts),
      )

  send-held :
      (s : State api) (pkts : List ℕ) (k a : ℕ)
      → s.tx ≡ busy pkts
      → held a (tx_send api s pkts k) ≡ held a s
  unfolding tx_send
  send-held s [] k a e = omega (arith, in_hand_busy s.tx [] a e)
  send-held s (m ∷ rest) k a e =
      let pkts : List ℕ = m ∷ rest in
      omega (
        arith,
        in_hand_busy s.tx pkts a e,
        count-append a s.sent (take k pkts),
        count-append a s.tx_freed (drop k pkts),
        count-take-drop a k pkts,
      )

  queue-held :
      (s : State api) (m : ℕ) (rest : List ℕ) (a : ℕ)
      → s.rx ≡ busy (m ∷ rest)
      → held a (rx_enqueue api s m rest) ≡ held a s
  unfolding rx_enqueue
  queue-held s m rest a e = ground (
    arith,
    in_hand_busy s.rx (m ∷ rest) a e,
    items-enqueue_ok s.rx_to_parse m,
    items-enqueue_full s.rx_to_parse m,
    count-append a (items s.rx_to_parse) (m ∷ []),
  )

  check-held : (s : State api) (a : ℕ) → s.rx ≡ busy [] → held a (rx_check api s) ≡ held a s
  unfolding rx_check
  check-held s a e = ground (arith, in_hand_busy s.rx [] a e)

  Step-held :
      {s : State api} {pkts : List ℕ} {t : State api}
      → Step api s pkts t
      → (a : ℕ) → held a t ≡ held a s + count a pkts
  unfolding rx_receive parser_dequeue tx_dequeue
  Step-held {s} (receive pkts e q le) a = omega (arith, in_hand-poll s.rx a e)
  Step-held {s} (rx_quit e q) a = omega (arith, in_hand-poll s.rx a e)
  Step-held {s} (queue m rest e) a = omega (arith, queue-held s m rest a e)
  Step-held {s} (check e) a = omega (arith, check-held s a e)
  Step-held {s} (take_parse e q) a =
      omega (arith, in_hand-poll s.parser a e, dequeue_burst-count api s.rx_to_parse burst_size a)
  Step-held {s} (parser_quit e q) a = omega (arith, in_hand-poll s.parser a e)
  Step-held {s} (forward pkts e) a = omega (arith, forward-held s pkts a e)
  Step-held {s} (take_tx e q) a =
      omega (arith, in_hand-poll s.tx a e, dequeue_burst-count api s.parse_to_tx burst_size a)
  Step-held {s} (tx_quit e q) a = omega (arith, in_hand-poll s.tx a e)
  Step-held {s} (send pkts k e le) a = omega (arith, send-held s pkts k a e)

  -- In every interleaving each received packet is in the hands of one thread, in one of the rings,
  -- sent, freed by the parser or by the sender, or refused by the first ring, exactly as often as it
  -- was received (and as it stood somewhere at the start).
  pub threads_conserve :
      {s : State api} {got : List ℕ} {t : State api}
      → Reach api s got t
      → (a : ℕ) → held a t ≡ held a s + count a got
  threads_conserve here a = omega arith
  threads_conserve (next {got = g} {pkts = p} r st) a =
      omega (arith, threads_conserve r a, Step-held st a, count-append a g p)
