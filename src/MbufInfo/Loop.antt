-- ===== src/MbufInfo/Loop.antt =====
-- ports/port_mempool/rx_tx.c: each packet is printed, and all are sent back.
use dpdk_starter.Base.{
  ℕ, zero, suc, ◌+◌, ◌≡◌, false, refl, ap, ap₂, ◌∙◌, List, [], ◌∷◌, ◌++◌, map, length, take, drop,
  count, ltb, ◌==◌, if◌then◌else◌, arith,
}
use dpdk_starter.Packet.{Mbuf}
use dpdk_starter.PortLoops.Echo.{State, idle, echo, received, echo_conserves, run}
use dpdk_starter.MbufInfo.{Info, Line, print_mbuf_info}

-- An mbuf: its address, the fields that are printed, and its data.
pub record Packet : Type 0 where
  pub address : ℕ
  pub info : Info
  pub frame : Mbuf

-- The lines of `run_rx_tx_loop`: those of `print_mbuf_info`, and the data of a packet in hexadecimal
-- behind its index and length.
pub data Output : Type 0 where
  received_packets : ℕ → Output
  info_line : Line → Output
  packet_bytes : ℕ → ℕ → List ℕ → Output

-- `for (int j = 0; j < len; j++)`, from `j` on.
abbrev pub bytes_from : Mbuf → ℕ → ℕ → List ℕ
bytes_from m j zero = []
bytes_from m j (suc n) = m.byte j ∷ bytes_from m (j + 1) n

abbrev pub print_packets : ℕ → List Packet → List Output
print_packets i [] = []
print_packets i (p ∷ ps) =
    map (λ l. info_line l) (print_mbuf_info p.info)
    ++ (packet_bytes i p.frame.data_len (bytes_from p.frame 0 p.frame.data_len)
        ∷ print_packets (i + 1) ps)

abbrev pub addresses : List Packet → List ℕ
addresses = map (λ p. p.address)

-- A round on the packets that `rte_eth_rx_burst` stored and on `nb_tx`: the state after it, and what it
-- has printed.
unfoldable pub print_round : State → List Packet → ℕ → State × List Output
print_round s bufs nb_tx = if length bufs == 0 then (s, []) else (
  (let t = record s { sent = s.sent ++ take nb_tx (addresses bufs) } in
      if ltb nb_tx (length bufs)
      then record t { freed = s.freed ++ drop nb_tx (addresses bufs) }
      else t),
  received_packets (length bufs) ∷ print_packets 0 bufs,
)

-- The rounds of `while (1)`.
unfoldable pub print_rounds : State → List (List Packet × ℕ) → State × List Output
print_rounds s [] = (s, [])
print_rounds s ((bufs, nb_tx) ∷ rounds) =
    let (t, lines) = print_round s bufs nb_tx in
    let (u, more) = print_rounds t rounds in (u, lines ++ more)

-- The data that the lines show, in order.
abbrev pub contents : List Output → List (List ℕ)
contents [] = []
contents (received_packets n ∷ lines) = contents lines
contents (info_line l ∷ lines) = contents lines
contents (packet_bytes i n bytes ∷ lines) = bytes ∷ contents lines

abbrev pub frames : List (List Packet × ℕ) → List (List ℕ)
frames [] = []
frames ((bufs, nb_tx) ∷ rounds) =
    map (λ p. bytes_from p.frame 0 p.frame.data_len) bufs ++ frames rounds

-- The same rounds, as the echo loop sees them.
abbrev pub bursts : List (List Packet × ℕ) → List (List ℕ × ℕ)
bursts [] = []
bursts ((bufs, nb_tx) ∷ rounds) = (addresses bufs, nb_tx) ∷ bursts rounds

contents-append : (a b : List Output) → contents (a ++ b) ≡ contents a ++ contents b
contents-append [] b = refl
contents-append (received_packets n ∷ a) b = contents-append a b
contents-append (info_line l ∷ a) b = contents-append a b
contents-append (packet_bytes i n bytes ∷ a) b = ap (λ r. bytes ∷ r) (contents-append a b)

contents-info :
    (ls : List Line) (rest : List Output)
    → contents (map (λ l. info_line l) ls ++ rest) ≡ contents rest
contents-info [] rest = refl
contents-info (l ∷ ls) rest = contents-info ls rest

contents-print_packets :
    (i : ℕ) (ps : List Packet)
    → contents (print_packets i ps) ≡ map (λ p. bytes_from p.frame 0 p.frame.data_len) ps
contents-print_packets i [] = refl
contents-print_packets i (p ∷ ps) =
    contents-info (print_mbuf_info p.info) _
    ∙ ap (λ r. bytes_from p.frame 0 p.frame.data_len ∷ r) (contents-print_packets (i + 1) ps)

length-addresses : (ps : List Packet) → length (addresses ps) ≡ length ps
length-addresses [] = refl
length-addresses (p ∷ ps) = ap suc (length-addresses ps)

print_round-echo :
    (s : State) (bufs : List Packet) (nb_tx : ℕ)
    → ((print_round s bufs nb_tx).0 ≡ echo s (addresses bufs) nb_tx)
      × (contents (print_round s bufs nb_tx).1
          ≡ map (λ p. bytes_from p.frame 0 p.frame.data_len) bufs)
unfolding print_round echo
print_round-echo s [] nb_tx = (refl, refl)
print_round-echo s (p ∷ ps) nb_tx =
    let some_packets : (suc (length ps) == 0) ≡ false = ground arith in
    (ground (arith, length-addresses ps), rw some_packets (contents-print_packets 0 (p ∷ ps)))

print_rounds-echo :
    (s : State) (rounds : List (List Packet × ℕ))
    → ((print_rounds s rounds).0 ≡ run s (bursts rounds))
      × (contents (print_rounds s rounds).1 ≡ frames rounds)
unfolding print_rounds run
print_rounds-echo s [] = (refl, refl)
print_rounds-echo s ((bufs, nb_tx) ∷ rounds) =
    let (same, shown) = print_round-echo s bufs nb_tx in
    let (same', shown') = print_rounds-echo (print_round s bufs nb_tx).0 rounds in
    (
      same' ∙ ap (λ t. run t (bursts rounds)) same,
      contents-append (print_round s bufs nb_tx).1
            (print_rounds (print_round s bufs nb_tx).0 rounds).1
          ∙ ap₂ (λ a b. a ++ b) shown shown',
    )

-- In any rounds of the loop of ports/port_mempool: the data of each received packet is printed whole, once,
-- in the order of reception, and each packet is sent or freed as often as it was received.
pub rounds_shown :
    (rounds : List (List Packet × ℕ)) (m : ℕ)
    → let (s, lines) = print_rounds idle rounds in
      (contents lines ≡ frames rounds)
      × (count m s.sent + count m s.freed ≡ count m (received (bursts rounds)))
rounds_shown rounds m =
    let (same, shown) = print_rounds-echo idle rounds in
    (shown, rw same (echo_conserves (bursts rounds) m))
