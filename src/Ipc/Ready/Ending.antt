-- ===== src/Ipc/Ready/Ending.antt =====
-- The five numbers can always arrive.
use dpdk_starter.Base.{
  ℕ, suc, ◌+◌, ◌-◌, ◌*◌, ◌≤◌, ◌<◌, ◌≡◌, refl, ap, Bool, Bool-cases, true, ◌⊎◌, inl, inr, List, [],
  ◌∷◌, length, length-append, ltb, if◌then◌else◌, arith, tests,
}
use mathlib.Core.List.{append-nil}
use dpdk_starter.Ring.{RingApi, IsSized}
use dpdk_starter.Ring.Single.{dequeue_cons, enqueue_room}
use dpdk_starter.Ipc.Runs.{Star, Star-descend}
use dpdk_starter.Ipc.Talk.{numbers}
use dpdk_starter.Ipc.Ready.{
  Primary, creating, asking, waiting, counting, done, Secondary, starting, looking, polling, State,
  create_ring, send_check, await_ready, send_number, ready_cb, register_action, check_cb,
  lookup_ring, receive_number, Step, create, ask, await, send, hear_reply, register, hear_check,
  find, receive, launch,
}
use dpdk_starter.Ipc.Ready.Order.{IsShaken, Step-IsShaken, run-IsShaken, length-numbers, sent_by}

-- How far each part is from its end.
abbrev primary_left : Primary → ℕ
primary_left creating = 14
primary_left asking = 13
primary_left waiting = 12
primary_left (counting i) = 11 - 2 * i
primary_left done = 0

abbrev secondary_left : Secondary → ℕ
secondary_left starting = 2
secondary_left looking = 1
secondary_left polling = 0

abbrev messages_left : Bool → ℕ → ℕ → ℕ
messages_left ready replies checks =
    if ready then 0 else if ltb 0 replies then 1 else if ltb 0 checks then 2 else 3

module _ (api : RingApi) (capacity : ℕ) (sized : IsSized api capacity) (room : 5 ≤ capacity) where
  open api use {Ring, items, enqueue}

  abbrev left : State api → ℕ
  left s =
      primary_left s.primary
      + secondary_left s.secondary
      + messages_left s.secondary_ready s.replies s.checks
      + length (items s.ring)

  abbrev IsOver : State api → Type 0
  IsOver s = (s.primary ≡ done) × (s.secondary ≡ polling) × (items s.ring ≡ [])

  -- A step that leads on.
  abbrev Advance : State api → Type 0
  Advance s = (t : State api) × Step api s t × (left t < left s)

  handshake : (s : State api) → s.primary ≡ asking → s.secondary ≡ polling → Advance s
  unfolding send_check ready_cb check_cb
  handshake s e f = elim (Bool-cases s.secondary_ready) [
    | inl ready ↦ (send_check api s true, ask true e, ground arith)
    | inr unready ↦ elim (Bool-cases (ltb 0 s.replies)) [
      | inl heard ↦ (ready_cb api s, hear_reply (ground arith) (λ d. cc), ground arith)
      | inr unheard ↦ elim (Bool-cases (ltb 0 s.checks)) [
        | inl asked ↦ (check_cb api s true, hear_check true (ground arith) (λ d. cc), ground arith)
        | inr unasked ↦ (send_check api s true, ask true e, ground arith)
      ]
    ]
  ]

  numbers_left : (s : State api) (i : ℕ) → s.primary ≡ counting i → IsShaken api s → Advance s
  unfolding send_number
  numbers_left s i e h = elim (Bool-cases (ltb i 5)) [
    | inl less ↦
        let fits : length (items s.ring) < capacity = omega (
          tests,
          ap length h.order,
          ap sent_by e,
          length-append s.received (items s.ring),
          length-numbers (sent_by s.primary),
        ) in
        let (ok, put) = enqueue_room api capacity sized s.ring i fits in
        (send_number api s i, send i e, ground (arith, put, length-append (items s.ring) (i ∷ [])))
    | inr last ↦ (send_number api s i, send i e, ground (arith, h.few))
  ]

  drain :
      (s : State api) (x : ℕ) (xs : List ℕ)
      → s.secondary ≡ polling
      → items s.ring ≡ x ∷ xs
      → Advance s
  unfolding receive_number
  drain s x xs f e =
      let (got, rest) = dequeue_cons api capacity sized s.ring x xs e in
      (receive_number api s, receive f, ground arith)

  polled :
      (p : Primary) (xs : List ℕ) (s : State api)
      → s.primary ≡ p
      → s.secondary ≡ polling
      → items s.ring ≡ xs
      → IsShaken api s
      → IsOver s ⊎ Advance s
  unfolding await_ready
  polled creating xs s e f g h = absurd (ground (arith, h.found))
  polled asking xs s e f g h = inr (handshake s e f)
  polled waiting xs s e f g h = inr (await_ready api s, await e, ground (arith, h.past))
  polled (counting i) xs s e f g h = inr (numbers_left s i e h)
  polled done [] s e f g h = inl (e, f, g)
  polled done (x ∷ xs) s e f g h = inr (drain s x xs f g)

  looked : (p : Primary) (s : State api) → s.primary ≡ p → s.secondary ≡ looking → Advance s
  unfolding lookup_ring create_ring
  looked creating s e f = (create_ring api s, create e, ground arith)
  looked asking s e f = (lookup_ring api s, find f, ground arith)
  looked waiting s e f = (lookup_ring api s, find f, ground arith)
  looked (counting i) s e f = (lookup_ring api s, find f, ground arith)
  looked done s e f = (lookup_ring api s, find f, ground arith)

  advance :
      (q : Secondary) (s : State api) → s.secondary ≡ q → IsShaken api s → IsOver s ⊎ Advance s
  unfolding register_action
  advance starting s f h = inr (register_action api s, register f, ground arith)
  advance looking s f h = inr (looked s.primary s refl f)
  advance polling s f h = polled s.primary (items s.ring) s refl f refl h

  progress :
      (c s : State api)
      → (s ≡ c) × IsShaken api s
      → (IsOver s × IsShaken api s)
        ⊎ ((t : State api) × Step api s t
            × (d : State api) × ((t ≡ d) × IsShaken api t)
            × (left d < left c))
  progress c s (e, h) = elim (advance s.secondary s refl h) [
    | inl over ↦ inl (over, h)
    | inr (t, st, less) ↦
        inr (
          t,
          st,
          t,
          (refl, Step-IsShaken api capacity sized room s t h st),
          omega (arith, ap left e),
        )
  ]

  -- On an empty ring with room for five, whatever has happened until then, lost messages included: there
  -- are steps that lead to the end, where the primary has returned, and the secondary has received 0, 1,
  -- 2, 3 and 4.
  pub ready_can_end :
      {r : Ring} {s : State api}
      → items r ≡ []
      → Star (Step api) (launch api r) s
      → (t : State api) × Star (Step api) s t × (t.primary ≡ done) × (t.received ≡ numbers 5)
  ready_can_end {r} {s} e ss =
      let h = run-IsShaken api capacity sized room e ss in
      let (t, later, over) =
        Star-descend {Q = λ t. IsOver t × IsShaken api t} left progress (suc (left s)) s s (refl, h)
          (omega arith) in
      let ((ended, f, empty), i) = over in
      (t, later, ended, ground (arith, i.order, append-nil t.received))
