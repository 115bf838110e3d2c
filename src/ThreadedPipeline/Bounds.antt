-- ===== src/ThreadedPipeline/Bounds.antt =====
-- The receiver stops after at most 41 packets, so no ring call of it fails, and the three counters
-- count each packet once.
use dpdk_starter.Base.{
  ℕ, ◌+◌, ◌≤◌, ◌<◌, ◌≡◌, ap, true, false, List, [], ◌∷◌, length, length-append, length-take,
  length-drop, take, drop, arith,
}
use native.Mathlib.Nat.{add-zero}
use dpdk_starter.Ring.{RingApi}
use dpdk_starter.ThreadedPipeline.{
  Place, poll, busy, State, rx_receive, rx_enqueue, rx_check, parser_dequeue, parser_forward,
  tx_dequeue, tx_send, Step, receive, rx_quit, queue, check, take_parse, parser_quit, forward,
  take_tx, tx_quit, send, Reach, here, next, burst_size, launch,
}
use dpdk_starter.ThreadedPipeline.Conservation.{in_hand}

-- `roomy`: the rings of RX_RING_SIZE 1024 refuse an object only when they hold 1023.
module _ (api : RingApi)
    (roomy : (r : api.Ring) (x : ℕ)
      → (api.enqueue r x).0 ≡ false
      → 1023 ≤ length (api.items r)) where
  open api use {items, enqueue, enqueue_burst, dequeue_burst}
  open api use {items-enqueue_ok, items-enqueue_burst, items-dequeue_burst, enqueue_burst_bound}

  -- `n` packets were received.
  pub record IsCounted (n : ℕ) (s : State api) : Type 0 where
    pub received : s.rx_count ≡ n
    pub limit : n ≤ 41
    pub polling : s.rx ≡ poll → n < 10
    pub queued : s.unqueued ≡ []
    pub parsed :
        s.parser_count
          + length (in_hand s.parser)
          + length (items s.rx_to_parse)
          + length (in_hand s.rx)
        ≡ n
    pub passed :
        s.tx_count + length (in_hand s.tx) + length (items s.parse_to_tx) + length s.parser_freed
        ≡ s.parser_count
    pub done : length s.sent + length s.tx_freed ≡ s.tx_count

  launch-IsCounted :
      (r₁ r₂ : api.Ring) → items r₁ ≡ [] → items r₂ ≡ [] → IsCounted 0 (launch api r₁ r₂)
  launch-IsCounted r₁ r₂ e₁ e₂ = ground arith

  length-enqueue_ok :
      (r : api.Ring) (x : ℕ)
      → (enqueue r x).0 ≡ true
      → length (items (enqueue r x).1) ≡ length (items r) + 1
  length-enqueue_ok r x h =
      omega (arith, ap length (items-enqueue_ok r x h), length-append (items r) (x ∷ []))

  length-dequeue_burst :
      (r : api.Ring)
      → length (items r)
        ≡ length (dequeue_burst r burst_size).0 + length (items (dequeue_burst r burst_size).1)
  length-dequeue_burst r = omega (
    arith,
    ap length (items-dequeue_burst r burst_size),
    length-append (dequeue_burst r burst_size).0 (items (dequeue_burst r burst_size).1),
  )

  length-enqueue_burst :
      (r : api.Ring) (xs : List ℕ)
      → length (items (enqueue_burst r xs).1) + length (drop (enqueue_burst r xs).0 xs)
        ≡ length (items r) + length xs
  length-enqueue_burst r xs = omega (
    arith,
    ap length (items-enqueue_burst r xs),
    length-append (items r) (take (enqueue_burst r xs).0 xs),
    length-take (enqueue_burst r xs).0 xs,
    length-drop (enqueue_burst r xs).0 xs,
    enqueue_burst_bound r xs,
  )

  in_hand-length_busy : (p : Place) (xs : List ℕ) → p ≡ busy xs → length (in_hand p) ≡ length xs
  in_hand-length_busy p xs e = rw e

  in_hand-length-poll : (p : Place) → p ≡ poll → length (in_hand p) ≡ 0
  in_hand-length-poll p e = rw e

  receive-IsCounted :
      (n : ℕ) (s : State api) (pkts : List ℕ)
      → s.rx ≡ poll
      → length pkts ≤ burst_size
      → IsCounted n s
      → IsCounted (n + length pkts) (rx_receive api s pkts)
  unfolding rx_receive
  receive-IsCounted n s pkts e le h = ground (arith, h.polling e, in_hand-length-poll s.rx e)

  queue-IsCounted :
      (n : ℕ) (s : State api) (m : ℕ) (rest : List ℕ)
      → s.rx ≡ busy (m ∷ rest)
      → IsCounted n s
      → IsCounted n (rx_enqueue api s m rest)
  unfolding rx_enqueue
  queue-IsCounted n s m rest e h = ground (
    arith,
    roomy s.rx_to_parse m,
    length-enqueue_ok s.rx_to_parse m,
    in_hand-length_busy s.rx (m ∷ rest) e,
  )

  check-IsCounted :
      (n : ℕ) (s : State api) → s.rx ≡ busy [] → IsCounted n s → IsCounted n (rx_check api s)
  unfolding rx_check
  check-IsCounted n s e h = ground (arith, in_hand-length_busy s.rx [] e)

  forward-IsCounted :
      (n : ℕ) (s : State api) (pkts : List ℕ)
      → s.parser ≡ busy pkts
      → IsCounted n s
      → IsCounted n (parser_forward api s pkts)
  unfolding parser_forward
  forward-IsCounted n s [] e h = ground (arith, in_hand-length_busy s.parser [] e)
  forward-IsCounted n s (m ∷ rest) e h =
      let pkts : List ℕ = m ∷ rest in
      ground (
        arith,
        in_hand-length_busy s.parser pkts e,
        length-enqueue_burst s.parse_to_tx pkts,
        length-append s.parser_freed (drop (enqueue_burst s.parse_to_tx pkts).0 pkts),
      )

  send-IsCounted :
      (n : ℕ) (s : State api) (pkts : List ℕ) (k : ℕ)
      → s.tx ≡ busy pkts
      → k ≤ length pkts
      → IsCounted n s
      → IsCounted n (tx_send api s pkts k)
  unfolding tx_send
  send-IsCounted n s [] k e le h = ground (arith, in_hand-length_busy s.tx [] e)
  send-IsCounted n s (m ∷ rest) k e le h =
      let pkts : List ℕ = m ∷ rest in
      ground (
        arith,
        in_hand-length_busy s.tx pkts e,
        length-append s.sent (take k pkts),
        length-append s.tx_freed (drop k pkts),
        length-take k pkts,
        length-drop k pkts,
      )

  Step-IsCounted :
      {s : State api} {pkts : List ℕ} {t : State api}
      → Step api s pkts t
      → (n : ℕ) → IsCounted n s
      → IsCounted (n + length pkts) t
  unfolding parser_dequeue tx_dequeue
  Step-IsCounted {s} (receive pkts e q le) n h = receive-IsCounted n s pkts e le h
  Step-IsCounted {s} (rx_quit e q) n h = ground (arith, in_hand-length-poll s.rx e)
  Step-IsCounted {s} (queue m rest e) n h = rw add-zero (queue-IsCounted n s m rest e h)
  Step-IsCounted {s} (check e) n h = rw add-zero (check-IsCounted n s e h)
  Step-IsCounted {s} (take_parse e q) n h =
      ground (arith, in_hand-length-poll s.parser e, length-dequeue_burst s.rx_to_parse)
  Step-IsCounted {s} (parser_quit e q) n h = ground (arith, in_hand-length-poll s.parser e)
  Step-IsCounted {s} (forward pkts e) n h = rw add-zero (forward-IsCounted n s pkts e h)
  Step-IsCounted {s} (take_tx e q) n h =
      ground (arith, in_hand-length-poll s.tx e, length-dequeue_burst s.parse_to_tx)
  Step-IsCounted {s} (tx_quit e q) n h = ground (arith, in_hand-length-poll s.tx e)
  Step-IsCounted {s} (send pkts k e le) n h = rw add-zero (send-IsCounted n s pkts k e le h)

  -- From the launch with empty rings, in every interleaving: the receiver takes at most 41 packets,
  -- none of its ring calls fails, `rx_count` is the number of packets received, and the parser's
  -- and the sender's counters with what is in the rings and in hand add up to it.
  pub Reach-IsCounted :
      {r₁ r₂ : api.Ring} {got : List ℕ} {t : State api}
      → items r₁ ≡ []
      → items r₂ ≡ []
      → Reach api (launch api r₁ r₂) got t
      → IsCounted (length got) t
  Reach-IsCounted {r₁} {r₂} e₁ e₂ here = launch-IsCounted r₁ r₂ e₁ e₂
  Reach-IsCounted e₁ e₂ (next {got = g} {pkts = p} r st) =
      rw (length-append g p) (Step-IsCounted st (length g) (Reach-IsCounted e₁ e₂ r))
