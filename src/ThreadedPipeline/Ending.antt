-- ===== src/ThreadedPipeline/Ending.antt =====
-- The three threads can always return.
use dpdk_starter.Base.{
  ℕ, ◌+◌, ◌≤◌, ◌<◌, ◌≡◌, refl, ◌∙◌, true, false, Bool-cases, inl, inr, List, [], ◌∷◌, length, leb,
  replicate, arith,
}
use dpdk_starter.Ring.{RingApi}
use dpdk_starter.ThreadedPipeline.{
  Place, poll, busy, returned, State, rx_receive, rx_enqueue, rx_check, parser_forward, tx_send,
  Step, receive, rx_quit, queue, check, parser_quit, forward, tx_quit, send, Reach, here, next,
  launch,
}
use dpdk_starter.ThreadedPipeline.Bounds.{Reach-IsCounted}
use dpdk_starter.ThreadedPipeline.Quitting.{Reach-IsQuit}

module _ (api : RingApi) where
  open api use {items}

  -- Steps lead on, with some packets received on the way.
  abbrev Onward : State api → State api → Type 0
  Onward s t = (got : List ℕ) × Reach api s got t

  Onward-append : {s t u : State api} {got : List ℕ} → Onward s t → Reach api t got u → Onward s u
  Onward-append a here = a
  Onward-append a (next r st) = let (got, b) = Onward-append a r in (_, next b st)

  onward : {s t u : State api} → Onward s t → Onward t u → Onward s u
  onward a (got, r) = Onward-append a r

  one : {s t : State api} {pkts : List ℕ} → Step api s pkts t → Onward s t
  one st = (_, next here st)

  -- The enqueues of the receiver.
  queue_all :
      (rest : List ℕ) (s : State api)
      → s.rx ≡ busy rest
      → (t : State api) × Onward s t × (t.rx ≡ busy []) × (t.rx_count ≡ s.rx_count)
  unfolding rx_enqueue
  queue_all [] s e = (s, ([], here), e, refl)
  queue_all (m ∷ rest) s e =
      let u = rx_enqueue api s m rest in
      let (t, on, idle, same) = queue_all rest u (ground arith) in
      (t, onward (one (queue m rest e)) on, idle, same ∙ ground arith)

  -- The receiver's last rounds: it quits, or takes ten packets more.
  last_burst :
      (s : State api)
      → s.rx ≡ poll
      → s.rx_count < 10
      → s.force_quit ≡ false
      → (t : State api) × Onward s t × (t.rx ≡ returned) × (t.force_quit ≡ true)
  unfolding rx_receive rx_check
  last_burst s e few on =
      let pkts : List ℕ = replicate 10 0 in
      let (t, queued, idle, same) = queue_all pkts (rx_receive api s pkts) refl in
      let counted : (rx_receive api s pkts).rx_count ≡ s.rx_count + 10 = omega arith in
      let enough : leb 10 t.rx_count ≡ true = ground (arith, same, counted) in
      (
        rx_check api t,
        onward (one (receive pkts e on (omega arith))) (onward queued (one (check idle))),
        rw enough refl,
        rw enough refl,
      )

  -- The receiver at the head of its loop.
  from_poll :
      (s : State api)
      → s.rx ≡ poll
      → s.rx_count < 10
      → (t : State api) × Onward s t × (t.rx ≡ returned) × (t.force_quit ≡ true)
  from_poll s e few = elim (Bool-cases s.force_quit) [
    | inl told ↦ (record s { rx = returned }, one (rx_quit e told), refl, told)
    | inr on ↦ last_burst s e few on
  ]

  from_busy :
      (s : State api)
      → s.rx ≡ busy []
      → (t : State api) × Onward s t × (t.rx ≡ returned) × (t.force_quit ≡ true)
  unfolding rx_check
  from_busy s e = elim (Bool-cases (leb 10 s.rx_count)) [
    | inl enough ↦ (rx_check api s, one (check e), rw enough refl, rw enough refl)
    | inr few ↦
        let (t, on, over, told) = from_poll (rx_check api s) (rw few refl) (ground arith) in
        (t, onward (one (check e)) on, over, told)
  ]

  receiver_ends :
      (p : Place) (s : State api)
      → s.rx ≡ p
      → (s.rx ≡ poll → s.rx_count < 10)
      → (s.rx ≡ returned → s.force_quit ≡ true)
      → (t : State api) × Onward s t × (t.rx ≡ returned) × (t.force_quit ≡ true)
  receiver_ends poll s e few told = from_poll s e (few e)
  receiver_ends (busy pkts) s e few told =
      let (u, queued, idle, same) = queue_all pkts s e in
      let (t, on, over, quit) = from_busy u idle in (t, onward queued on, over, quit)
  receiver_ends returned s e few told = (s, ([], here), e, told e)

  -- Once `force_quit` is set, the parser passes on what it has in hand, and returns.
  parser_ends :
      (p : Place) (s : State api)
      → s.parser ≡ p
      → s.rx ≡ returned
      → s.force_quit ≡ true
      → (t : State api) × Onward s t
        × (t.parser ≡ returned)
        × (t.rx ≡ returned)
        × (t.force_quit ≡ true)
  unfolding parser_forward
  parser_ends poll s e over quit =
      (record s { parser = returned }, one (parser_quit e quit), refl, over, quit)
  parser_ends (busy []) s e over quit =
      let u = parser_forward api s [] in
      (
        record u { parser = returned },
        onward (one (forward [] e)) (one (parser_quit refl quit)),
        refl,
        over,
        quit,
      )
  parser_ends (busy (m ∷ rest)) s e over quit =
      let u = parser_forward api s (m ∷ rest) in
      (
        record u { parser = returned },
        onward (one (forward (m ∷ rest) e)) (one (parser_quit refl quit)),
        refl,
        over,
        quit,
      )
  parser_ends returned s e over quit = (s, ([], here), e, over, quit)

  -- So does the sender.
  sender_ends :
      (p : Place) (s : State api)
      → s.tx ≡ p
      → s.force_quit ≡ true
      → (t : State api) × Onward s t × (t.tx ≡ returned) × (t.parser ≡ s.parser) × (t.rx ≡ s.rx)
  unfolding tx_send
  sender_ends poll s e quit = (record s { tx = returned }, one (tx_quit e quit), refl, refl, refl)
  sender_ends (busy []) s e quit =
      let u = tx_send api s [] 0 in
      (
        record u { tx = returned },
        onward (one (send [] 0 e (omega arith))) (one (tx_quit refl quit)),
        refl,
        refl,
        refl,
      )
  sender_ends (busy (m ∷ rest)) s e quit =
      let u = tx_send api s (m ∷ rest) 0 in
      (
        record u { tx = returned },
        onward (one (send (m ∷ rest) 0 e (omega arith))) (one (tx_quit refl quit)),
        refl,
        refl,
        refl,
      )
  sender_ends returned s e quit = (s, ([], here), e, refl, refl)

  module _
      (roomy : (r : api.Ring) (x : ℕ)
        → (api.enqueue r x).0 ≡ false
        → 1023 ≤ length (api.items r)) where
    -- From the launch with empty rings that refuse an object only when they hold 1023, whatever the threads
    -- have done until then: there are packets that the port can deliver, and steps of the threads, by which
    -- all three threads return.
    pub threads_can_end :
        {r₁ r₂ : api.Ring} {got : List ℕ} {s : State api}
        → items r₁ ≡ []
        → items r₂ ≡ []
        → Reach api (launch api r₁ r₂) got s
        → (t : State api) × (more : List ℕ) × Reach api s more t
          × (t.rx ≡ returned)
          × (t.parser ≡ returned)
          × (t.tx ≡ returned)
    threads_can_end {s} e₁ e₂ r =
        let c = Reach-IsCounted api roomy e₁ e₂ r in
        let q = Reach-IsQuit api r in
        let (u, on, over, quit) =
          receiver_ends s.rx s refl (λ e. omega (arith, c.received, c.polling e)) q.told in
        let (v, on', parsed, over', quit') = parser_ends u.parser u refl over quit in
        let (w, on'', sent, same, same') = sender_ends v.tx v refl quit' in
        let all = onward on (onward on' on'') in
        (w, all.0, all.1, same' ∙ over', same ∙ parsed, sent)
