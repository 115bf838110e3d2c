-- ===== src/Eventdev.antt =====
-- The event device of DPDK (lib/eventdev, not part of the repository) as an interface: the calls that
-- eventdev/02practice and eventdev/parsing_event make, and what the DPDK manual says of them. A list
-- that meets it stands in Eventdev/Listed.antt.
pub mod Listed
pub mod Practice
pub mod Receiving
pub mod Parsing
pub mod Processes
pub mod Project
pub mod OneWorker
mod Tests
use dpdk_starter.Base.{
  ℕ, ◌≤◌, ◌≡◌, ◌≢◌, Bool, true, false, Option, none, some, List, [], ◌∷◌, ◌++◌, length, All,
}

-- `value` is `u64`, or the address in `event_ptr`.
pub record Event : Type 0 where
  pub queue_id : ℕ
  pub flow_id : ℕ
  pub value : ℕ

-- `enqueue` and `dequeue` are the bursts of one event on a port. `pending` are the events that have
-- been enqueued and not dequeued, oldest first. The manual: an event that is refused changes nothing;
-- an event is dequeued once, on one port; the events of an atomic flow leave in their order.
pub record EventApi : Type 1 where
  pub Device : Type 0
  pub pending : Device → List Event
  pub enqueue : Device → ℕ → Event → Bool × Device
  pub dequeue : Device → ℕ → Option Event × Device
  pub pending-enqueue_ok :
      (d : Device) (port : ℕ) (e : Event)
      → (enqueue d port e).0 ≡ true
      → pending (enqueue d port e).1 ≡ pending d ++ (e ∷ [])
  pub pending-enqueue_full :
      (d : Device) (port : ℕ) (e : Event)
      → (enqueue d port e).0 ≡ false
      → pending (enqueue d port e).1 ≡ pending d
  pub pending-dequeue_some :
      (d : Device) (port : ℕ) (e : Event)
      → (dequeue d port).0 ≡ some e
      → (older : List Event) × (newer : List Event) × (pending d ≡ older ++ (e ∷ newer))
        × (pending (dequeue d port).1 ≡ older ++ newer)
        × All (λ o. o.flow_id ≢ e.flow_id) older
  pub pending-dequeue_none :
      (d : Device) (port : ℕ) → (dequeue d port).0 ≡ none → pending (dequeue d port).1 ≡ pending d

-- An event is refused only when `limit` events are pending.
pub record IsRoomy (api : EventApi) (limit : ℕ) : Type 0 where
  pub roomy :
      (d : api.Device) (port : ℕ) (e : Event)
      → (api.enqueue d port e).0 ≡ false
      → limit ≤ length (api.pending d)

-- The scheduler of the device keeps up: of two ports that are linked to every queue, one gets an event
-- when there is one.
pub record IsServing (api : EventApi) : Type 0 where
  pub serving :
      (d : api.Device)
      → (api.dequeue d 1).0 ≡ none
      → (api.dequeue (api.dequeue d 1).1 2).0 ≡ none
      → api.pending d ≡ []
