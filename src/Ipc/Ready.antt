-- ===== src/Ipc/Ready.antt =====
-- inter_process_comm/Multi_Process_Messaging: primary.c asks by messages of rte_mp until secondary.c
-- has answered one, and then sends five numbers over a ring. A step is one call of rte_mp or of the ring
-- by one process, or one message handled by its callback, in any order. What the primary prints is not
-- modelled. DPDK hands a message to the callback that is registered for its name, and drops it where
-- none is; a message may fail to be sent, which neither process looks at.
pub mod Order
pub mod Ending
mod Tests
use dpdk_starter.Base.{
  ℕ, ◌+◌, ◌-◌, ◌<◌, ◌≡◌, ◌≢◌, Bool, true, false, Option, none, some, List, [], ◌∷◌, ◌++◌, ltb,
  if◌then◌else◌,
}
use dpdk_starter.Ring.{RingApi}
use dpdk_starter.Ring.Single.{dequeue}

-- Where primary.c stands: before it creates the ring, at the first `while (!secondary_ready)`, at the
-- second, in the `for` with `i`, or returned.
pub data Primary : Type 0 where
  creating asking waiting : Primary
  counting : ℕ → Primary
  done : Primary

-- Where secondary.c stands: before it registers its callback, at the lookup of the ring, or at the
-- `while (1)`.
pub data Secondary : Type 0 where
  starting looking polling : Secondary

module _ (api : RingApi) where
  open api use {Ring, enqueue}

  -- `checks` and `replies` are the messages on their way; `received` logs the lines `received %ld`.
  pub record State : Type 0 where
    pub ring : Ring
    pub primary : Primary
    pub secondary : Secondary
    pub secondary_ready : Bool
    pub checks : ℕ
    pub replies : ℕ
    pub received : List ℕ

  -- `rte_ring_create`, and `rte_mp_action_register` behind it.
  unfoldable pub create_ring : State → State
  create_ring s = record s { primary = asking }

  -- A round of the first `while`: `sent` says whether `rte_mp_sendmsg(&msg)` succeeds.
  unfoldable pub send_check : State → Bool → State
  send_check s sent =
      if s.secondary_ready
      then record s { primary = waiting }
      else if sent
      then record s { checks = s.checks + 1 }
      else s

  -- A round of the second `while`.
  unfoldable pub await_ready : State → State
  await_ready s = if s.secondary_ready then record s { primary = counting 0 } else s

  -- A round of the `for`: the result of the enqueue is not looked at.
  unfoldable pub send_number : State → ℕ → State
  send_number s i =
      if ltb i 5
      then record s { ring = (enqueue s.ring i).1; primary = counting (i + 1) }
      else record s { primary = done }

  -- The callback of the primary.
  unfoldable pub ready_cb : State → State
  ready_cb s = record s { secondary_ready = true; replies = s.replies - 1 }

  -- `rte_mp_action_register`
  unfoldable pub register_action : State → State
  register_action s = record s { secondary = looking }

  -- The callback of the secondary, once it is registered: `sent` says whether the reply is sent.
  unfoldable pub check_cb : State → Bool → State
  check_cb s sent =
      let s' = record s { checks = s.checks - 1 } in
      if sent then record s' { replies = s.replies + 1 } else s'

  -- A message for which no callback is registered.
  unfoldable pub drop_check : State → State
  drop_check s = record s { checks = s.checks - 1 }

  -- `while ((ring = rte_ring_lookup(RING_NAME)) == NULL)`: the ring is there once it is created.
  unfoldable pub lookup_ring : State → State
  lookup_ring s = elim s.primary [
    | creating ↦ s
    | asking ↦ record s { secondary = polling }
    | waiting ↦ record s { secondary = polling }
    | counting i ↦ record s { secondary = polling }
    | done ↦ record s { secondary = polling }
  ]

  -- A round of `while (1)`.
  unfoldable pub receive_number : State → State
  receive_number s =
      let (got, r) = dequeue api s.ring in
      elim got [
        | none ↦ record s { ring = r }
        | some v ↦ record s { ring = r; received = s.received ++ (v ∷ []) }
      ]

  pub data Step (s : State) : State → Type 0 where
    create : s.primary ≡ creating → Step s (create_ring s)
    ask : (sent : Bool) → s.primary ≡ asking → Step s (send_check s sent)
    await : s.primary ≡ waiting → Step s (await_ready s)
    send : (i : ℕ) → s.primary ≡ counting i → Step s (send_number s i)
    hear_reply : 0 < s.replies → s.primary ≢ done → Step s (ready_cb s)
    register : s.secondary ≡ starting → Step s (register_action s)
    hear_check : (sent : Bool) → 0 < s.checks → s.secondary ≢ starting → Step s (check_cb s sent)
    ignore_check : 0 < s.checks → s.secondary ≡ starting → Step s (drop_check s)
    find : s.secondary ≡ looking → Step s (lookup_ring s)
    receive : s.secondary ≡ polling → Step s (receive_number s)

  abbrev pub launch : Ring → State
  launch r = record {
    ring = r;
    primary = creating;
    secondary = starting;
    secondary_ready = false;
    checks = 0;
    replies = 0;
    received = [];
  }
