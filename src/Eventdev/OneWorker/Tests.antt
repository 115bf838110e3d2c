-- ===== src/Eventdev/OneWorker/Tests.antt =====
-- The event is enqueued, the worker prints it, and the main lcore returns.
use dpdk_starter.Base.{ℕ, ◌≡◌, ◌⊎◌, inr, refl, [], ◌∷◌}
use dpdk_starter.Ipc.Runs.{Star, here, then_step}
use dpdk_starter.Eventdev.{EventApi}
use dpdk_starter.Eventdev.Listed.{device_of}
use dpdk_starter.Eventdev.OneWorker.{
  State, ev, ended, absent, polling, got, enqueue_ev, event_worker, finish, Step, enqueues, polls,
  finishes, launch,
}
use dpdk_starter.Eventdev.OneWorker.Handled.{one_event_handled}

abbrev events : EventApi
events = device_of 4096

abbrev s₃ : State events
s₃ = record (launch events [] polling) { main = ended; worker = got 42 1 }

run₃ : Star (Step events) (launch events [] polling) s₃
unfolding enqueue_ev event_worker finish
run₃ = then_step (then_step (then_step here (enqueues refl)) (polls refl)) (finishes refl (λ e. cc))

one_event_handled_example :
    ((v f : ℕ) → s₃.worker ≡ got v f → (v ≡ 42) × (f ≡ 1) × (events.pending s₃.device ≡ []))
    × (s₃.main ≡ ended
        → ((events.pending s₃.device ≡ ev ∷ []) × (s₃.worker ≡ absent))
          ⊎ ((events.pending s₃.device ≡ []) × (s₃.worker ≡ got 42 1)))
one_event_handled_example = one_event_handled events refl (inr refl) run₃
