-- ===== src/PortLoops/Vhost.antt =====
-- inter_process_comm/virtu_vhost_ipc: backend.c sends back what it receives, and frontend.c sends a packet
-- of its own in each round and frees what comes back. Neither looks at what `rte_eth_tx_burst` returns.
use dpdk_starter.Base.{
  ℕ, ◌+◌, ◌≡◌, refl, Bool, true, false, Option, none, some, Option-cases, ◌⊎◌, inl, inr, List, [],
  ◌∷◌, ◌++◌, length, take, drop, count, count-append, count-take-drop, ◌==◌, if◌then◌else◌, arith,
}

-- `lost` are the packets that the driver did not take, which stay allocated.
pub record Backend : Type 0 where
  pub sent : List ℕ
  pub lost : List ℕ

-- A round on the packets that `rte_eth_rx_burst` stored, of which the driver takes `nb_tx`.
unfoldable pub backend_round : Backend → List ℕ → ℕ → Backend
backend_round s pkts nb_tx =
    if length pkts == 0
    then s
    else record s { sent = s.sent ++ take nb_tx pkts; lost = s.lost ++ drop nb_tx pkts }

unfoldable pub backend_run : Backend → List (List ℕ × ℕ) → Backend
backend_run s [] = s
backend_run s ((pkts, nb_tx) ∷ rounds) = backend_run (backend_round s pkts nb_tx) rounds

-- `faulted`: `rte_pktmbuf_append` has been called on NULL.
pub record Frontend : Type 0 where
  pub sent : List ℕ
  pub lost : List ℕ
  pub freed : List ℕ
  pub faulted : Bool

-- What DPDK answers in a round of the frontend: what `rte_pktmbuf_alloc` returns, whether the driver takes
-- the packet, and what comes back.
pub record Answers : Type 0 where
  pub allocated : Option ℕ
  pub taken : Bool
  pub echoed : List ℕ

unfoldable pub frontend_round : Frontend → Answers → Frontend
frontend_round s a = elim a.allocated [
  | none ↦ record s { faulted = true }
  | some p ↦
      let t =
        if a.taken
        then record s { sent = s.sent ++ (p ∷ []) }
        else record s { lost = s.lost ++ (p ∷ []) } in
      record t { freed = s.freed ++ a.echoed }
]

-- Nothing happens behind a fault.
unfoldable pub frontend_run : Frontend → List Answers → Frontend
frontend_run s [] = s
frontend_run s (a ∷ rounds) =
    let rest = frontend_run (frontend_round s a) rounds in if s.faulted then s else rest

abbrev pub received : List (List ℕ × ℕ) → List ℕ
received [] = []
received ((pkts, nb_tx) ∷ rounds) = pkts ++ received rounds

backend_round-count :
    (s : Backend) (pkts : List ℕ) (nb_tx m : ℕ)
    → let t = backend_round s pkts nb_tx in
      count m t.sent + count m t.lost ≡ count m s.sent + count m s.lost + count m pkts
unfolding backend_round
backend_round-count s [] nb_tx m = ground arith
backend_round-count s (p ∷ pkts) nb_tx m = ground (
  arith,
  count-append m s.sent (take nb_tx (p ∷ pkts)),
  count-append m s.lost (drop nb_tx (p ∷ pkts)),
  count-take-drop m nb_tx (p ∷ pkts),
)

-- In any rounds of the backend, each packet is sent or lost as often as it was received: none is freed.
pub backend_conserves :
    (s : Backend) (rounds : List (List ℕ × ℕ)) (m : ℕ)
    → let t = backend_run s rounds in
      count m t.sent + count m t.lost ≡ count m s.sent + count m s.lost + count m (received rounds)
unfolding backend_run
backend_conserves s [] m = omega arith
backend_conserves s ((pkts, nb_tx) ∷ rounds) m = omega (
  arith,
  backend_conserves (backend_round s pkts nb_tx) rounds m,
  backend_round-count s pkts nb_tx m,
  count-append m pkts (received rounds),
)

abbrev pub exhausted : List Answers → Bool
exhausted [] = false
exhausted (a ∷ rounds) = elim a.allocated [ none ↦ true | some p ↦ exhausted rounds ]

frontend_run-faulted :
    (s : Frontend) (rounds : List Answers) → s.faulted ≡ true → frontend_run s rounds ≡ s
unfolding frontend_run
frontend_run-faulted s [] h = refl
frontend_run-faulted s (a ∷ rounds) h = rw h refl

frontend_round-faulted :
    (s : Frontend) (a : Answers)
    → s.faulted ≡ false
    → ((a.allocated ≡ none) × ((frontend_round s a).faulted ≡ true))
      ⊎ ((p : ℕ) × (a.allocated ≡ some p) × ((frontend_round s a).faulted ≡ false))
unfolding frontend_round
frontend_round-faulted s a h = elim (Option-cases a.allocated) [
  | inl nothing ↦ inl (nothing, ground arith)
  | inr (p, got) ↦ inr (p, got, ground arith)
]

frontend_run-cons :
    (s : Frontend) (a : Answers) (rounds : List Answers)
    → s.faulted ≡ false
    → frontend_run s (a ∷ rounds) ≡ frontend_run (frontend_round s a) rounds
unfolding frontend_run
frontend_run-cons s a rounds h = ground arith

-- The frontend faults exactly if a packet cannot be allocated in some round.
pub frontend_faults :
    (s : Frontend) (rounds : List Answers)
    → s.faulted ≡ false
    → (frontend_run s rounds).faulted ≡ exhausted rounds
unfolding frontend_run
frontend_faults s [] h = h
frontend_faults s (a ∷ rounds) h =
    let next = frontend_run-cons s a rounds h in
    elim (frontend_round-faulted s a h) [
      | inl (nothing, fault) ↦
          ground
            (arith, next, nothing, fault, frontend_run-faulted (frontend_round s a) rounds fault)
      | inr (p, got, well) ↦
          ground (arith, next, got, frontend_faults (frontend_round s a) rounds well)
    ]
