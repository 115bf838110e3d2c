-- ===== src/Reorder.antt =====
-- reordering/rx_burst, main2.c and main.c: the packets of the port go through a reorder buffer.
pub mod Order
mod Tests
use dpdk_starter.Base.{
  ℕ, ◌+◌, ◌≤◌, ◌<◌, ◌≡◌, Bool, true, false, List, [], ◌∷◌, ◌++◌, map, length, All, u32, ◌==◌,
  if◌then◌else◌,
}

-- lib/reorder of DPDK, which is not part of the repository. `held` has the packets of the buffer, each
-- with its sequence number, in the order in which they will leave. The manual: the packets leave in
-- the order of their numbers, so a packet with a number above all others goes last; a packet that is
-- refused leaves the buffer as it was; `drain` takes packets from the front, as many as asked for at
-- most.
pub record ReorderApi : Type 1 where
  pub Buffer : Type 0
  pub held : Buffer → List (ℕ × ℕ)
  pub insert : Buffer → ℕ → ℕ → Bool × Buffer
  pub drain : Buffer → ℕ → List (ℕ × ℕ) × Buffer
  pub held-insert_last :
      (b : Buffer) (seq m : ℕ)
      → All (λ e. e.0 < seq) (held b)
      → (insert b seq m).0 ≡ true
      → held (insert b seq m).1 ≡ held b ++ ((seq, m) ∷ [])
  pub held-insert_refused :
      (b : Buffer) (seq m : ℕ) → (insert b seq m).0 ≡ false → held (insert b seq m).1 ≡ held b
  pub held-drain : (b : Buffer) (n : ℕ) → held b ≡ (drain b n).0 ++ held (drain b n).1
  pub drain_bound : (b : Buffer) (n : ℕ) → length (drain b n).0 ≤ n

-- BURST_SIZE of main2.c, and BURST of main.c.
abbrev pub burst_size : ℕ
burst_size = 32

abbrev pub small_burst : ℕ
small_burst = 8

abbrev pub numbers : List (ℕ × ℕ) → List ℕ
numbers = map (λ e. e.0)

abbrev pub packets : List (ℕ × ℕ) → List ℕ
packets = map (λ e. e.1)

module _ (api : ReorderApi) where
  open api use {Buffer, insert, drain}

  -- The buffer and `seq_counter`; the packets freed because they were refused; the numbers printed,
  -- and the packets freed behind that.
  pub record State : Type 0 where
    pub rbuf : Buffer
    pub seq_counter : ℕ
    pub refused : List ℕ
    pub printed : List ℕ
    pub freed : List ℕ

  abbrev pub launch : Buffer → State
  launch b = record { rbuf = b; seq_counter = 0; refused = []; printed = []; freed = [] }

  -- The body of the `for` over the received packets.
  unfoldable pub insert_packet : State → ℕ → State
  insert_packet s m =
      let (ok, b) = insert s.rbuf s.seq_counter m in
      record s {
        rbuf = b;
        seq_counter = u32 (s.seq_counter + 1);
        refused = if ok then s.refused else s.refused ++ (m ∷ []);
      }

  unfoldable pub insert_burst : State → List ℕ → State
  insert_burst s [] = s
  insert_burst s (m ∷ ms) = insert_burst (insert_packet s m) ms

  -- The drain of `burst` packets at most, and the `for` over what it returns.
  unfoldable pub drain_ordered : ℕ → State → State
  drain_ordered burst s =
      let (out, b) = drain s.rbuf burst in
      record s { rbuf = b; printed = s.printed ++ numbers out; freed = s.freed ++ packets out }

  -- The body of `while (1)` on what the driver returns.
  unfoldable pub round : ℕ → State → List ℕ → State
  round burst s rx = if length rx == 0 then s else drain_ordered burst (insert_burst s rx)

  unfoldable pub run : ℕ → State → List (List ℕ) → State
  run burst s [] = s
  run burst s (rx ∷ bursts) = run burst (round burst s rx) bursts

  -- The loop of main2.c, and that of main.c, which stores the number by RTE_MBUF_DYNFIELD at
  -- `rte_reorder_seqn_dynfield_offset`. In a program linked with the shared libraries of DPDK, as the
  -- makefile does, this variable is the one that rte_reorder_create sets.
  abbrev pub rx_reorder_loop : State → List (List ℕ) → State
  rx_reorder_loop = run burst_size

  abbrev pub insert_one : State → ℕ → State
  insert_one = insert_packet

  abbrev pub drain_small : State → State
  drain_small = drain_ordered small_burst

  abbrev pub small_loop : State → List (List ℕ) → State
  small_loop = run small_burst
