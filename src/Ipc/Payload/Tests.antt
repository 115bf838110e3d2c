-- ===== src/Ipc/Payload/Tests.antt =====
-- The message is sent, handled, and the primary returns.
use dpdk_starter.Base.{◌≡◌, ◌⊎◌, refl, true, some, []}
use dpdk_starter.Ipc.Runs.{Star, here, then_step}
use dpdk_starter.Ipc.Payload.{
  State, returned, send_message, mp_message_handler, wait_round, secondary_main, Step, sends,
  handles, waits, launch, payload, payload_heard,
}

abbrev s₁ : State
s₁ = record launch { secondary = returned; in_flight = some send_message }

abbrev s₃ : State
s₃ = record launch { out = true; finished = true; secondary = returned; printed = payload }

run₃ : Star Step launch s₃
unfolding secondary_main mp_message_handler wait_round send_message
run₃ =
    then_step (then_step (then_step here (sends true refl)) (handles send_message refl refl))
      (waits refl)

payload_heard_example :
    ((s₃.printed ≡ []) ⊎ (s₃.printed ≡ payload))
    × (s₃.finished ≡ true → (s₃.printed ≡ payload) × (s₃.secondary ≡ returned))
payload_heard_example = payload_heard run₃
