-- ===== src/Eventdev/OneWorker.antt =====
-- eventdev/practice/main.c: the main lcore enqueues one event, and one worker waits for it on the same
-- port. A step is one call of the event device by one lcore, or the end of the main lcore's wait; the
-- steps interleave in any order.
pub mod Handled
mod Tests
use dpdk_starter.Base.{ℕ, ◌≡◌, ◌≢◌, none, some, if◌then◌else◌}
use dpdk_starter.Eventdev.{Event, EventApi}

abbrev pub ev : Event
ev = record { queue_id = 0; flow_id = 1; value = 42 }

-- Where the main lcore stands: at the `while`, at `rte_eal_mp_wait_lcore`, or returned.
pub data Main : Type 0 where
  enqueuing waiting ended : Main

-- The worker: there is none when there is no other lcore; it polls, or has returned with the `u64` and the
-- `flow_id` that it has printed.
pub data Worker : Type 0 where
  absent polling : Worker
  got : ℕ → ℕ → Worker

module _ (api : EventApi) where
  open api use {Device, enqueue, dequeue}

  pub record State : Type 0 where
    pub device : Device
    pub main : Main
    pub worker : Worker

  -- A round of `while (rte_event_enqueue_burst(...) != 1)`.
  unfoldable pub enqueue_ev : State → State
  enqueue_ev s =
      let (ok, d) = enqueue s.device 0 ev in
      if ok then record s { device = d; main = waiting } else record s { device = d }

  -- A round of `while (1)` in `event_worker`.
  unfoldable pub event_worker : State → State
  event_worker s =
      let (out, d) = dequeue s.device 0 in
      elim out [
        | none ↦ record s { device = d }
        | some e ↦ record s { device = d; worker = got e.value e.flow_id }
      ]

  unfoldable pub finish : State → State
  finish s = record s { main = ended }

  pub data Step (s : State) : State → Type 0 where
    enqueues : s.main ≡ enqueuing → Step s (enqueue_ev s)
    polls : s.worker ≡ polling → Step s (event_worker s)
    finishes : s.main ≡ waiting → s.worker ≢ polling → Step s (finish s)

  abbrev pub launch : Device → Worker → State
  launch d w = record { device = d; main = enqueuing; worker = w }
