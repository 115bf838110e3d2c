-- ===== src/Eventdev/Receiving.antt =====
-- Every event is received once, and those of a flow in their order.
use dpdk_starter.Base.{
  ℕ, zero, suc, ◌+◌, ◌≤◌, ◌<◌, ◌≡◌, ◌≢◌, refl, sym, ap, ◌∙◌, false, Bool-cases, none, some,
  Option-cases, inl, inr, List, [], ◌∷◌, ◌++◌, length, length-append, All, ltb, ◌==◌, if◌then◌else◌,
  arith,
}
use mathlib.Core.List.{append_assoc, append-nil}
use dpdk_starter.Eventdev.{Event, EventApi, IsRoomy, IsServing}
use dpdk_starter.Eventdev.Practice.{
  event, enqueue_event, produce, Consumers, no_lines, poll, consume,
}

length_zero : (xs : List Event) → length xs ≡ 0 → xs ≡ []
length_zero [] h = refl
length_zero (x ∷ xs) h = absurd (omega arith)

-- The events of flow `f`.
abbrev pub flow : ℕ → List Event → List Event
flow f [] = []
flow f (e ∷ es) = let rest = flow f es in if e.flow_id == f then e ∷ rest else rest

flow-append : (f : ℕ) (xs ys : List Event) → flow f (xs ++ ys) ≡ flow f xs ++ flow f ys
flow-append f [] ys = refl
flow-append f (x ∷ xs) ys = ground (arith, flow-append f xs ys)

flow-none : (f : ℕ) (xs : List Event) → All (λ o. o.flow_id ≢ f) xs → flow f xs ≡ []
flow-none f [] h = refl
flow-none f (x ∷ xs) h = ground (arith, flow-none f xs h.1, h.0)

-- The event that is taken was the first of its flow.
flow-taken :
    (f : ℕ) (older newer : List Event) (e : Event)
    → All (λ o. o.flow_id ≢ e.flow_id) older
    → flow f (older ++ (e ∷ newer)) ≡ flow f (e ∷ []) ++ flow f (older ++ newer)
flow-taken f older newer e h = elim (Bool-cases (e.flow_id == f)) [
  | inl same ↦
      let own : e.flow_id ≡ f = ground arith in
      ground (
        arith,
        same,
        flow-append f older (e ∷ newer),
        flow-append f older newer,
        ap (λ g. flow g older) own,
        flow-none e.flow_id older h,
      )
  | inr other ↦ ground (arith, other, flow-append f older (e ∷ newer), flow-append f older newer)
]

-- The events of the `for` from `i` on, with `n` to go.
abbrev pub events_from : ℕ → ℕ → List Event
events_from i zero = []
events_from i (suc n) = event i ∷ events_from (i + 1) n

length-events_from : (i n : ℕ) → length (events_from i n) ≡ n
length-events_from i zero = refl
length-events_from i (suc n) = ap suc (length-events_from (i + 1) n)

abbrev pub received_events : List (ℕ × Event) → List Event
received_events [] = []
received_events ((port, e) ∷ lines) = e ∷ received_events lines

received_events-append :
    (xs : List (ℕ × Event)) (port : ℕ) (e : Event)
    → received_events (xs ++ ((port, e) ∷ [])) ≡ received_events xs ++ (e ∷ [])
received_events-append [] port e = refl
received_events-append (x ∷ xs) port e = ap (λ r. x.1 ∷ r) (received_events-append xs port e)

module _ (api : EventApi) where
  open api use {
    Device, pending, enqueue, dequeue, pending-enqueue_ok, pending-dequeue_some,
    pending-dequeue_none,
  }

  produce_lem :
      (limit : ℕ) (roomy : IsRoomy api limit) (fuel : ℕ) (d : Device) (i n : ℕ)
      → length (pending d) + n ≤ limit
      → (d' : Device) × (produce api (suc fuel) d i n ≡ some d')
        × (pending d' ≡ pending d ++ events_from i n)
  unfolding produce enqueue_event
  produce_lem limit roomy fuel d i zero le = (d, refl, sym (append-nil (pending d)))
  produce_lem limit roomy fuel d i (suc n) le = elim (Bool-cases (enqueue d 0 (event i)).0) [
    | inl ok ↦
        let put = pending-enqueue_ok d 0 (event i) ok in
        let (d', e, p) =
          produce_lem limit roomy fuel (enqueue d 0 (event i)).1 (i + 1) n
            (omega (arith, ap length put, length-append (pending d) (event i ∷ []))) in
        (
          d',
          ground (arith, ok, e),
          p
              ∙ ap (λ es. es ++ events_from (i + 1) n) put
              ∙ append_assoc (pending d) (event i ∷ []) (events_from (i + 1) n),
        )
    | inr full ↦ absurd (omega (arith, roomy.roomy d 0 (event i) full))
  ]

  -- What the two consumers keep.
  abbrev Keeps : Consumers api → Consumers api → ℕ → Type 0
  Keeps s t f =
      (flow f (received_events t.lines) ++ flow f (pending t.device)
        ≡ flow f (received_events s.lines) ++ flow f (pending s.device))
      × (t.received + length (pending t.device) ≡ s.received + length (pending s.device))
      × (s.received ≤ t.received)

  poll_nothing :
      (port : ℕ) (s : Consumers api)
      → (dequeue s.device port).0 ≡ none
      → (poll api port s).device ≡ (dequeue s.device port).1
  unfolding poll
  poll_nothing port s nothing = ground (arith, nothing)

  poll-none-Keeps :
      (port : ℕ) (s : Consumers api) (f : ℕ)
      → (dequeue s.device port).0 ≡ none
      → Keeps s (poll api port s) f
  unfolding poll
  poll-none-Keeps port s f nothing =
      ground (arith, nothing, pending-dequeue_none s.device port nothing)

  poll_got :
      (port : ℕ) (s : Consumers api) (e : Event)
      → (dequeue s.device port).0 ≡ some e
      → ((poll api port s).received ≡ s.received + 1)
        × (received_events (poll api port s).lines ≡ received_events s.lines ++ (e ∷ []))
        × ((poll api port s).device ≡ (dequeue s.device port).1)
  unfolding poll
  poll_got port s e got = ground (arith, got, received_events-append s.lines port e)

  poll-Keeps : (port : ℕ) (s : Consumers api) (f : ℕ) → Keeps s (poll api port s) f
  poll-Keeps port s f = elim (Option-cases (dequeue s.device port).0) [
    | inl nothing ↦ poll-none-Keeps port s f nothing
    | inr (e, got) ↦
        let (older, newer, before, after, first) = pending-dequeue_some s.device port e got in
        let (count, lines, device) = poll_got port s e got in
        (
          ap (λ r. flow f r ++ flow f (pending (poll api port s).device)) lines
              ∙ ap (λ r. r ++ flow f (pending (poll api port s).device))
                  (flow-append f (received_events s.lines) (e ∷ []))
              ∙ append_assoc (flow f (received_events s.lines)) (flow f (e ∷ []))
                  (flow f (pending (poll api port s).device))
              ∙ ap (λ r. flow f (received_events s.lines) ++ r)
                  (ap (λ d. flow f (e ∷ []) ++ flow f (pending d)) device
                    ∙ ap (λ r. flow f (e ∷ []) ++ flow f r) after
                    ∙ sym (flow-taken f older newer e first)
                    ∙ ap (flow f) (sym before)),
          omega (
            arith,
            count,
            ap (λ d. length (pending d)) device,
            ap length before,
            ap length after,
            length-append older newer,
            length-append older (e ∷ newer),
          ),
          omega (arith, count),
        )
  ]

  round-Keeps : (s : Consumers api) (f : ℕ) → Keeps s (poll api 2 (poll api 1 s)) f
  round-Keeps s f =
      let (a, b, c) = poll-Keeps 1 s f in
      let (a', b', c') = poll-Keeps 2 (poll api 1 s) f in (a' ∙ a, b' ∙ b, omega (arith, c, c'))

  module _ (serving : IsServing api) where
    round_progress :
        (s : Consumers api)
        → 0 < length (pending s.device)
        → s.received < (poll api 2 (poll api 1 s)).received
    round_progress s some_left = elim (Option-cases (dequeue s.device 1).0) [
      | inr (e, got) ↦ omega (arith, (poll_got 1 s e got).0, (poll-Keeps 2 (poll api 1 s) 0).2)
      | inl nothing ↦ elim (Option-cases (dequeue (poll api 1 s).device 2).0) [
        | inr (e, got) ↦ omega (arith, (poll_got 2 (poll api 1 s) e got).0, (poll-Keeps 1 s 0).2)
        | inl nothing2 ↦ absurd (
            omega (
              arith,
              ap length (
                  serving.serving s.device nothing
                    (ap (λ d. (dequeue d 2).0) (sym (poll_nothing 1 s nothing)) ∙ nothing2)),
            ))
      ]
    ]

    consume_all :
        (s : Consumers api)
        → s.received + length (pending s.device) ≡ 10
        → ltb s.received 10 ≡ false
        → (f : ℕ)
        → flow f (received_events s.lines)
          ≡ flow f (received_events s.lines) ++ flow f (pending s.device)
    consume_all s total over f =
        let none_left : pending s.device ≡ [] = length_zero (pending s.device) (ground arith) in
        sym (
          ap (λ es. flow f (received_events s.lines) ++ flow f es) none_left
          ∙ append-nil (flow f (received_events s.lines)))

    -- The loop from any state on.
    abbrev Receives : ℕ → Consumers api → Type 0
    Receives fuel s =
        (t : Consumers api) × (consume api fuel s ≡ some t)
        × ((f : ℕ)
            → flow f (received_events t.lines)
              ≡ flow f (received_events s.lines) ++ flow f (pending s.device))
        × (t.received ≡ 10)

    consume_over :
        (fuel : ℕ) (s : Consumers api)
        → s.received + length (pending s.device) ≡ 10
        → ltb s.received 10 ≡ false
        → Receives fuel s
    unfolding consume
    consume_over zero s total over =
        (s, ground (arith, over), consume_all s total over, ground arith)
    consume_over (suc fuel) s total over =
        (s, ground (arith, over), consume_all s total over, ground arith)

    consume_lem :
        (fuel : ℕ) (s : Consumers api)
        → s.received + length (pending s.device) ≡ 10
        → 10 ≤ s.received + fuel
        → Receives fuel s
    unfolding consume
    consume_lem zero s total enough = consume_over zero s total (ground arith)
    consume_lem (suc fuel) s total enough = elim (Bool-cases (ltb s.received 10)) [
      | inr over ↦ consume_over (suc fuel) s total over
      | inl more ↦
          let (k, b, c) = round-Keeps s 0 in
          let (t, e, flows, ten) =
            consume_lem fuel (poll api 2 (poll api 1 s)) (b ∙ total)
              (omega (arith, round_progress s (ground arith))) in
          (t, ground (arith, more, e), (λ f. flows f ∙ (round-Keeps s f).0), ten)
    ]

    -- On a device without events that takes ten, and whose scheduler keeps up: the producer's loops end,
    -- each at its first attempt; the consumers' loop ends after ten rounds at most, with ten events
    -- received, and they are, for each flow, the events of the flow that were sent, in their order,
    -- whichever consumer has received each.
    pub practice_receives :
        (limit : ℕ) (d : Device)
        → IsRoomy api limit
        → 10 ≤ limit
        → pending d ≡ []
        → (d' : Device) × (t : Consumers api) × (produce api 1 d 0 10 ≡ some d')
          × (consume api 10 (no_lines api d') ≡ some t)
          × (t.received ≡ 10)
          × ((f : ℕ) → flow f (received_events t.lines) ≡ flow f (events_from 0 10))
    practice_receives limit d roomy le e =
        let (d', made, sent) = produce_lem limit roomy 0 d 0 10 (omega (arith, ap length e)) in
        let all : pending d' ≡ events_from 0 10 = sent ∙ ap (λ es. es ++ events_from 0 10) e in
        let (t, done, flows, ten) =
          consume_lem 10 (no_lines api d') (omega (arith, ap length all)) (omega arith) in
        (d', t, made, done, ten, λ f. flows f ∙ ap (flow f) all)
