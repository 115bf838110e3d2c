-- ===== src/Ipc/Ready/Order.antt =====
-- The numbers arrive in their order, and none is sent before the secondary has answered.
use dpdk_starter.Base.{
  ℕ, zero, suc, ◌≤◌, ◌<◌, ◌≡◌, ◌≢◌, refl, sym, ap, ◌∙◌, Bool, Bool-cases, true, false, inl, inr, [],
  ◌∷◌, ◌++◌, length, length-append, ltb, arith, tests,
}
use mathlib.Core.List.{append_assoc}
use dpdk_starter.Ring.{RingApi, IsSized}
use dpdk_starter.Ring.Single.{dequeue, dequeue_either, enqueue_room}
use dpdk_starter.Ipc.Runs.{Star, Star-invariant}
use dpdk_starter.Ipc.Talk.{numbers}
use dpdk_starter.Ipc.Ready.{
  Primary, creating, asking, waiting, counting, done, Secondary, starting, looking, polling, State,
  create_ring, send_check, await_ready, send_number, ready_cb, register_action, check_cb,
  drop_check, lookup_ring, receive_number, Step, create, ask, await, send, hear_reply, register,
  hear_check, ignore_check, find, receive, launch,
}

-- How many numbers have been sent.
abbrev pub sent_by : Primary → ℕ
sent_by creating = 0
sent_by asking = 0
sent_by waiting = 0
sent_by (counting i) = i
sent_by done = 5

-- The primary is past its first `while`.
abbrev is_past : Primary → Bool
is_past creating = false
is_past asking = false
is_past waiting = true
is_past (counting i) = true
is_past done = true

-- The callback of the secondary is registered.
abbrev pub is_registered : Secondary → Bool
is_registered starting = false
is_registered looking = true
is_registered polling = true

abbrev is_created : Primary → Bool
is_created creating = false
is_created asking = true
is_created waiting = true
is_created (counting i) = true
is_created done = true

not_starting : (p : Secondary) → p ≢ starting → is_registered p ≡ true
not_starting starting h = absurd (h refl)
not_starting looking h = refl
not_starting polling h = refl

pub length-numbers : (n : ℕ) → length (numbers n) ≡ n
length-numbers zero = refl
length-numbers (suc n) = omega (arith, length-append (numbers n) (n ∷ []), length-numbers n)

module _ (api : RingApi) where
  open api use {Ring, items, enqueue}

  pub record IsShaken (s : State api) : Type 0 where
    pub order : s.received ++ items s.ring ≡ numbers (sent_by s.primary)
    pub few : sent_by s.primary ≤ 5
    pub past : is_past s.primary ≡ true → s.secondary_ready ≡ true
    pub ready : s.secondary_ready ≡ true → is_registered s.secondary ≡ true
    pub replied : 0 < s.replies → is_registered s.secondary ≡ true
    pub found : s.secondary ≡ polling → is_created s.primary ≡ true

  create-IsShaken :
      (s : State api) → s.primary ≡ creating → IsShaken s → IsShaken (create_ring api s)
  unfolding create_ring
  create-IsShaken s e h = ground arith

  ask-IsShaken :
      (s : State api) (sent : Bool)
      → s.primary ≡ asking
      → IsShaken s
      → IsShaken (send_check api s sent)
  unfolding send_check
  ask-IsShaken s sent e h = ground arith

  await-IsShaken : (s : State api) → s.primary ≡ waiting → IsShaken s → IsShaken (await_ready api s)
  unfolding await_ready
  await-IsShaken s e h = ground arith

  hear_reply-IsShaken : (s : State api) → 0 < s.replies → IsShaken s → IsShaken (ready_cb api s)
  unfolding ready_cb
  hear_reply-IsShaken s more h = ground arith

  register-IsShaken :
      (s : State api) → s.secondary ≡ starting → IsShaken s → IsShaken (register_action api s)
  unfolding register_action
  register-IsShaken s e h = ground arith

  hear_check-IsShaken :
      (s : State api) (sent : Bool)
      → s.secondary ≢ starting
      → IsShaken s
      → IsShaken (check_cb api s sent)
  unfolding check_cb
  hear_check-IsShaken s sent known h = ground (arith, not_starting s.secondary known)

  ignore_check-IsShaken : (s : State api) → IsShaken s → IsShaken (drop_check api s)
  unfolding drop_check
  ignore_check-IsShaken s h = ground arith

  find-IsShaken :
      (s : State api) → s.secondary ≡ looking → IsShaken s → IsShaken (lookup_ring api s)
  unfolding lookup_ring
  find-IsShaken s e h = ground arith

  receive-IsShaken :
      (s : State api) → s.secondary ≡ polling → IsShaken s → IsShaken (receive_number api s)
  unfolding receive_number
  receive-IsShaken s e h = elim (dequeue_either api s.ring) [
    | inl (nothing, same) ↦ ground arith
    | inr (v, got, before) ↦
        ground (arith, append_assoc s.received (v ∷ []) (items (dequeue api s.ring).1))
  ]

  module _ (capacity : ℕ) (sized : IsSized api capacity) (room : 5 ≤ capacity) where
    send-IsShaken :
        (s : State api) (i : ℕ)
        → s.primary ≡ counting i
        → IsShaken s
        → IsShaken (send_number api s i)
    unfolding send_number
    send-IsShaken s i e h = elim (Bool-cases (ltb i 5)) [
      | inl less ↦
          let here : s.received ++ items s.ring ≡ numbers i =
            h.order ∙ ap (λ p. numbers (sent_by p)) e in
          let fits : length (items s.ring) < capacity =
            omega
              (tests, ap length here, length-append s.received (items s.ring), length-numbers i) in
          let (ok, put) = enqueue_room api capacity sized s.ring i fits in
          let order : s.received ++ items (enqueue s.ring i).1 ≡ numbers (suc i) =
            ap (λ r. s.received ++ r) put
            ∙ sym (append_assoc s.received (items s.ring) (i ∷ []))
            ∙ ap (λ r. r ++ (i ∷ [])) here in
          rw less (ground (arith, order))
      | inr last ↦ rw last (ground arith)
    ]

    pub Step-IsShaken : (s t : State api) → IsShaken s → Step api s t → IsShaken t
    Step-IsShaken s t h (create e) = create-IsShaken s e h
    Step-IsShaken s t h (ask sent e) = ask-IsShaken s sent e h
    Step-IsShaken s t h (await e) = await-IsShaken s e h
    Step-IsShaken s t h (send i e) = send-IsShaken s i e h
    Step-IsShaken s t h (hear_reply more e) = hear_reply-IsShaken s more h
    Step-IsShaken s t h (register e) = register-IsShaken s e h
    Step-IsShaken s t h (hear_check sent more e) = hear_check-IsShaken s sent e h
    Step-IsShaken s t h (ignore_check more e) = ignore_check-IsShaken s h
    Step-IsShaken s t h (find e) = find-IsShaken s e h
    Step-IsShaken s t h (receive e) = receive-IsShaken s e h

    pub run-IsShaken :
        {r : Ring} {s : State api} → items r ≡ [] → Star (Step api) (launch api r) s → IsShaken s
    run-IsShaken e ss =
        Star-invariant {P = IsShaken} Step-IsShaken
          (record {
            order = e;
            few = omega arith;
            past = λ h. cc;
            ready = λ h. cc;
            replied = λ h. absurd (omega (arith, h));
            found = λ h. cc;
          })
          ss

    sent_registered : (p : Primary) → 0 < sent_by p → is_past p ≡ true
    sent_registered creating h = absurd (omega arith)
    sent_registered asking h = absurd (omega arith)
    sent_registered waiting h = absurd (omega arith)
    sent_registered (counting i) h = refl
    sent_registered done h = refl

    -- On an empty ring with room for five, in every interleaving and whichever messages are lost: what
    -- the secondary has received and what is still on the ring are the numbers that the primary has sent,
    -- 0, 1, and so on, in this order, at most five; and once one of them is sent, the primary has heard a
    -- reply, and the secondary has registered its callback.
    pub ready_in_order :
        {r : Ring} {s : State api}
        → items r ≡ []
        → Star (Step api) (launch api r) s
        → (n : ℕ) × (n ≡ sent_by s.primary)
          × (n ≤ 5)
          × (s.received ++ items s.ring ≡ numbers n)
          × (0 < n → (s.secondary_ready ≡ true) × (s.secondary ≢ starting))
    ready_in_order {r} {s} e ss =
        let h = run-IsShaken e ss in
        (
          sent_by s.primary,
          refl,
          h.few,
          h.order,
          λ some_sent.
              let heard = h.past (sent_registered s.primary some_sent) in
              (heard, λ f. cc (h.ready heard, f)),
        )
