-- ===== src/PortLoops/Echo.antt =====
-- ports/begin/dpdk_tun_echo.c and ports/packet_parsing/rx_tx.c: the loops that send what they receive.
use dpdk_starter.Base.{
  zero, false, ℕ, suc, ◌+◌, ◌≡◌, refl, ap, List, [], ◌∷◌, ◌++◌, length, take, drop, count,
  count-append, count-take-drop, ltb, ◌==◌, if◌then◌else◌, arith,
}

-- What the driver has taken, and the packets freed.
pub record State : Type 0 where
  pub sent : List ℕ
  pub freed : List ℕ

abbrev pub idle : State
idle = record { sent = []; freed = [] }

-- A round on the packets that `rte_eth_rx_burst` stored and on `nb_tx`.
unfoldable pub echo : State → List ℕ → ℕ → State
echo s bufs nb_tx =
    if length bufs == 0
    then s
    else (let t = record s { sent = s.sent ++ take nb_tx bufs } in
        if ltb nb_tx (length bufs) then record t { freed = s.freed ++ drop nb_tx bufs } else t)

-- The same round in `run_rx_tx_loop`, which prints each packet before.
unfoldable pub run_rx_tx_loop : State → List ℕ → ℕ → State
run_rx_tx_loop s bufs nb_tx =
    if length bufs == 0
    then s
    else (let t = record s { sent = s.sent ++ take nb_tx bufs } in
        if ltb nb_tx (length bufs) then record t { freed = s.freed ++ drop nb_tx bufs } else t)

unfoldable pub run : State → List (List ℕ × ℕ) → State
run s [] = s
run s ((bufs, nb_tx) ∷ rounds) = run (echo s bufs nb_tx) rounds

abbrev pub received : List (List ℕ × ℕ) → List ℕ
received [] = []
received ((bufs, nb_tx) ∷ rounds) = bufs ++ received rounds

-- Both programs do the same.
run_rx_tx_loop-echo :
    (s : State) (bufs : List ℕ) (nb_tx : ℕ) → run_rx_tx_loop s bufs nb_tx ≡ echo s bufs nb_tx
unfolding run_rx_tx_loop echo
run_rx_tx_loop-echo s bufs nb_tx = refl

all-taken : (n : ℕ) (xs : List ℕ) → ltb n (length xs) ≡ false → take n xs ≡ xs
all-taken zero [] h = refl
all-taken zero (x ∷ xs) h = absurd (ground arith)
all-taken (suc n) [] h = refl
all-taken (suc n) (x ∷ xs) h = ap (λ r. x ∷ r) (all-taken n xs (ground arith))

echo-count :
    (s : State) (bufs : List ℕ) (nb_tx m : ℕ)
    → let t = echo s bufs nb_tx in
      count m t.sent + count m t.freed ≡ count m s.sent + count m s.freed + count m bufs
unfolding echo
echo-count s [] nb_tx m = ground arith
echo-count s (b ∷ bufs) nb_tx m = ground (
  arith,
  all-taken nb_tx (b ∷ bufs),
  count-take-drop m nb_tx (b ∷ bufs),
  count-append m s.sent (take nb_tx (b ∷ bufs)),
  count-append m s.freed (drop nb_tx (b ∷ bufs)),
  count-append m s.sent (b ∷ bufs),
)

run-count :
    (s : State) (rounds : List (List ℕ × ℕ)) (m : ℕ)
    → count m (run s rounds).sent + count m (run s rounds).freed
      ≡ count m s.sent + count m s.freed + count m (received rounds)
unfolding run
run-count s [] m = omega arith
run-count s ((bufs, nb_tx) ∷ rounds) m = omega (
  arith,
  run-count (echo s bufs nb_tx) rounds m,
  echo-count s bufs nb_tx m,
  count-append m bufs (received rounds),
)

-- In any rounds of the echo loop, each packet is sent or freed as often as it was received.
pub echo_conserves :
    (rounds : List (List ℕ × ℕ)) (m : ℕ)
    → count m (run idle rounds).sent + count m (run idle rounds).freed ≡ count m (received rounds)
echo_conserves rounds m = omega (arith, run-count idle rounds m)
