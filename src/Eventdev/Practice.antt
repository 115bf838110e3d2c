-- ===== src/Eventdev/Practice.antt =====
-- eventdev/02practice/main.c: ten events of two flows go from one port to two others.
use dpdk_starter.Base.{
  ℕ, zero, suc, ◌+◌, ◌%◌, Option, none, some, List, [], ◌∷◌, ◌++◌, ltb, if◌then◌else◌,
}
use dpdk_starter.Eventdev.{Event, EventApi}

-- Event `i`.
abbrev pub event : ℕ → Event
event i = record { queue_id = 0; flow_id = i % 2; value = i }

module _ (api : EventApi) where
  open api use {Device, enqueue, dequeue}

  -- `while (rte_event_enqueue_burst(...) != 1)`, with `fuel` rounds at most.
  unfoldable pub enqueue_event : ℕ → Device → Event → Option Device
  enqueue_event zero d e = none
  enqueue_event (suc fuel) d e =
      let (ok, d') = enqueue d 0 e in
      let again = enqueue_event fuel d' e in if ok then some d' else again

  -- The `for` over the events, from `i` on with `n` to go.
  unfoldable pub produce : ℕ → Device → ℕ → ℕ → Option Device
  produce fuel d i zero = some d
  produce fuel d i (suc n) = elim (enqueue_event fuel d (event i)) [
    | none ↦ none
    | some d' ↦ produce fuel d' (i + 1) n
  ]

  -- `received`, and the lines printed, as the consumer and its event.
  pub record Consumers : Type 0 where
    pub device : Device
    pub received : ℕ
    pub lines : List (ℕ × Event)

  abbrev pub no_lines : Device → Consumers
  no_lines d = record { device = d; received = 0; lines = [] }

  -- `if (rte_event_dequeue_burst(EVENT_DEV_ID, port, &out, 1, 0))`
  unfoldable pub poll : ℕ → Consumers → Consumers
  poll port s =
      let (out, d) = dequeue s.device port in
      elim out [
        | none ↦ record s { device = d }
        | some e ↦ record s {
          device = d;
          received = s.received + 1;
          lines = s.lines ++ ((port, e) ∷ []);
        }
      ]

  -- `for (int received = 0; received < 10; )`, with `fuel` rounds at most.
  unfoldable pub consume : ℕ → Consumers → Option Consumers
  consume zero s = if ltb s.received 10 then none else some s
  consume (suc fuel) s =
      let rest = consume fuel (poll 2 (poll 1 s)) in if ltb s.received 10 then rest else some s
