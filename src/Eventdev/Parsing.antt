-- ===== src/Eventdev/Parsing.antt =====
-- eventdev/parsing_event/main.c: the worker prints the IPv4 addresses of each packet and passes it on to
-- the transmit queue. Its port 0 is linked to the receive and to the transmit queue.
use dpdk_starter.Base.{
  ℕ, zero, suc, ◌+◌, ◌≤◌, ◌<◌, ◌≡◌, refl, ap, ◌∙◌, Bool-cases, none, some, Option-cases, inl, inr,
  List, [], ◌∷◌, ◌++◌, map, length, length-append, count, count-append, ◌==◌, if◌then◌else◌, arith,
}
use mathlib.Core.List.{map-append}
use dpdk_starter.Packet.{Mbuf, be16, be32, ether_hdr_size, ether_type_ipv4}
use dpdk_starter.Eventdev.{Event, EventApi, IsRoomy}

abbrev pub tx_queue_id : ℕ
tx_queue_id = 1

-- The addresses of `event_ptr` of the events.
abbrev pub packets : List Event → List ℕ
packets = map (λ e. e.value)

-- How often a packet stands in the events.
abbrev pub occurs : ℕ → List Event → ℕ
occurs m es = count m (packets es)

pub occurs-append : (m : ℕ) (xs ys : List Event) → occurs m (xs ++ ys) ≡ occurs m xs + occurs m ys
occurs-append m xs ys =
    ap (count m) (map-append (λ e. e.value) xs ys) ∙ count-append m (packets xs) (packets ys)

module _ (api : EventApi) (frame : ℕ → Mbuf) where
  open api use {
    Device, pending, enqueue, dequeue, pending-dequeue_some, pending-dequeue_none,
    pending-enqueue_ok,
  }

  -- The device, and the lines `Parsed IPv4 src=%08x dst=%08x`.
  pub record Worker : Type 0 where
    pub device : Device
    pub lines : List (ℕ × ℕ)

  -- What the worker prints of a packet.
  unfoldable pub parse : List (ℕ × ℕ) → ℕ → List (ℕ × ℕ)
  parse lines m =
      if be16 (frame m) 12 == ether_type_ipv4
      then lines
        ++ ((be32 (frame m) (ether_hdr_size + 12), be32 (frame m) (ether_hdr_size + 16)) ∷ [])
      else lines

  -- The body of `while (1)`; the result of the enqueue is not looked at.
  unfoldable pub event_worker : Worker → Worker
  event_worker s =
      let (out, d) = dequeue s.device 0 in
      elim out [
        | none ↦ record s { device = d }
        | some ev ↦ record s {
          device = (enqueue d 0 (record ev { queue_id = tx_queue_id })).1;
          lines = parse s.lines ev.value;
        }
      ]

  unfoldable pub run : ℕ → Worker → Worker
  run zero s = s
  run (suc n) s = run n (event_worker s)

  event_worker_idle :
      (s : Worker)
      → (dequeue s.device 0).0 ≡ none
      → pending (event_worker s).device ≡ pending s.device
  unfolding event_worker
  event_worker_idle s nothing = ground (arith, nothing, pending-dequeue_none s.device 0 nothing)

  event_worker_device :
      (s : Worker) (ev : Event)
      → (dequeue s.device 0).0 ≡ some ev
      → (event_worker s).device
        ≡ (enqueue (dequeue s.device 0).1 0 (record ev { queue_id = tx_queue_id })).1
  unfolding event_worker
  event_worker_device s ev got = ground (arith, got)

  module _ (limit : ℕ) (roomy : IsRoomy api limit) where
    -- The device has as many events, and has each packet as often.
    event_worker_keeps :
        (s : Worker) (m : ℕ)
        → length (pending s.device) ≤ limit
        → (length (pending (event_worker s).device) ≡ length (pending s.device))
          × (occurs m (pending (event_worker s).device) ≡ occurs m (pending s.device))
    event_worker_keeps s m le = elim (Option-cases (dequeue s.device 0).0) [
      | inl nothing ↦
          (ap length (event_worker_idle s nothing), ap (occurs m) (event_worker_idle s nothing))
      | inr (ev, got) ↦
          let (older, newer, before, after, first) = pending-dequeue_some s.device 0 ev got in
          let back : Event = record ev { queue_id = tx_queue_id } in
          let d = (dequeue s.device 0).1 in
          let device = event_worker_device s ev got in
          let fewer : length (pending d) < limit = omega (
            arith,
            ap length before,
            ap length after,
            length-append older newer,
            length-append older (ev ∷ newer),
          ) in
          elim (Bool-cases (enqueue d 0 back).0) [
            | inr full ↦ absurd (omega (arith, roomy.roomy d 0 back full))
            | inl ok ↦
                let put = ap pending device ∙ pending-enqueue_ok d 0 back ok in
                (
                  omega (
                    arith,
                    ap length put,
                    length-append (pending d) (back ∷ []),
                    ap length before,
                    ap length after,
                    length-append older newer,
                    length-append older (ev ∷ newer),
                  ),
                  ground (
                    arith,
                    ap (occurs m) put,
                    occurs-append m (pending d) (back ∷ []),
                    ap (occurs m) before,
                    ap (occurs m) after,
                    occurs-append m older newer,
                    occurs-append m older (ev ∷ newer),
                  ),
                )
          ]
    ]

    -- While nothing else calls the device, which has room for what it holds: after any number of rounds
    -- of the worker, the device holds as many events as before, and each packet as often: the worker neither
    -- loses nor doubles a packet.
    pub event_worker_conserves :
        (n : ℕ) (s : Worker) (m : ℕ)
        → length (pending s.device) ≤ limit
        → (length (pending (run n s).device) ≡ length (pending s.device))
          × (occurs m (pending (run n s).device) ≡ occurs m (pending s.device))
    unfolding run
    event_worker_conserves zero s m le = (refl, refl)
    event_worker_conserves (suc n) s m le =
        let (a, b) = event_worker_keeps s m le in
        let (a', b') = event_worker_conserves n (event_worker s) m (omega (arith, a)) in
        (a' ∙ a, b' ∙ b)
