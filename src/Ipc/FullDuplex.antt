-- ===== src/Ipc/FullDuplex.antt =====
-- inter_process_comm/ring_full_duplex: primary.c sends ten numbers over one ring and waits for each
-- reply on the other; secondary.c replies to each number with ten times it, and ends at -1. A step is
-- one call of a ring or of rte_malloc by one process, with the process's own work up to its next such
-- call; the steps interleave in any order. What rte_malloc returns is a cell that is not allocated;
-- the source does not test for NULL.
pub mod Protocol
pub mod Refine
pub mod Ending
use dpdk_starter.Base.{
  ℕ, ◌+◌, ◌≡◌, Bool, true, false, Option, none, some, List, [], ◌∷◌, ◌++◌, ltb, ◌==◌, if◌then◌else◌,
}
use dpdk_starter.Ring.{RingApi}
use dpdk_starter.Ring.Single.{dequeue}
use dpdk_starter.Ipc.Memory.{Heap, load, malloc, free, minus_one, mul_int}

-- Where primary.c stands: at the head of the `for` with `i`, at a `while` with the message or the
-- reply it waits for, at the end, or at a read of a cell that is not allocated.
pub data Primary : Type 0 where
  counting : ℕ → Primary
  sending : ℕ → ℕ → Primary
  waiting : ℕ → Primary
  done : Primary
  faulted : Primary

-- Where secondary.c stands: at the first `while`, with `result`, at the second `while` with the reply.
pub data Secondary : Type 0 where
  polling : Secondary
  computed : ℕ → Secondary
  replying : ℕ → Secondary
  exited : Secondary
  crashed : Secondary

module _ (api : RingApi) where
  open api use {Ring, enqueue}

  -- `received` and `seen` log the lines `received %d` of the two processes.
  pub record State : Type 0 where
    pub ring : Ring
    pub ring2 : Ring
    pub heap : Heap ℕ
    pub primary : Primary
    pub secondary : Secondary
    pub received : List ℕ
    pub seen : List ℕ

  -- Behind the `for`, with `p` from rte_malloc; the result of the enqueue is not looked at.
  unfoldable pub stop_secondary : State → ℕ → State
  stop_secondary s p = record s {
    heap = malloc p minus_one s.heap;
    ring = (enqueue s.ring p).1;
    primary = done;
  }

  -- The head of the `for`, with `p` from rte_malloc for the message, or for the stop behind it.
  unfoldable pub next_message : State → ℕ → ℕ → State
  next_message s i p =
      if ltb i 10
      then record s { heap = malloc p i s.heap; primary = sending i p }
      else stop_secondary s p

  -- `while (rte_ring_enqueue(ring, msg) < 0)`
  unfoldable pub send_message : State → ℕ → ℕ → State
  send_message s i p =
      let (ok, r) = enqueue s.ring p in
      record s { ring = r; primary = if ok then waiting i else sending i p }

  -- `while (rte_ring_dequeue(ring2, &reply) < 0)`, and what follows a reply.
  unfoldable pub receive_reply : State → ℕ → State
  receive_reply s i =
      let (got, r) = dequeue api s.ring2 in
      elim got [
        | none ↦ record s { ring2 = r }
        | some q ↦ elim (load q s.heap) [
          | none ↦ record s { ring2 = r; primary = faulted }
          | some v ↦ record s {
            ring2 = r;
            heap = free q s.heap;
            received = s.received ++ (v ∷ []);
            primary = counting (i + 1);
          }
        ]
      ]

  -- `while (rte_ring_dequeue(ring, &msg) < 0)`, and what follows a message up to `rte_free(val)`.
  unfoldable pub take_message : State → State
  take_message s =
      let (got, r) = dequeue api s.ring in
      elim got [
        | none ↦ record s { ring = r }
        | some p ↦ elim (load p s.heap) [
          | none ↦ record s { ring = r; secondary = crashed }
          | some v ↦
              if v == minus_one
              then record s { ring = r; heap = free p s.heap; secondary = exited }
              else record s {
                ring = r;
                heap = free p s.heap;
                seen = s.seen ++ (v ∷ []);
                secondary = computed (mul_int v 10);
              }
        ]
      ]

  -- `*reply = result`, with `q` from rte_malloc.
  unfoldable pub make_reply : State → ℕ → ℕ → State
  make_reply s v q = record s { heap = malloc q v s.heap; secondary = replying q }

  -- `while (rte_ring_enqueue(ring2, reply) < 0)`
  unfoldable pub send_reply : State → ℕ → State
  send_reply s q =
      let (ok, r) = enqueue s.ring2 q in
      record s { ring2 = r; secondary = if ok then polling else replying q }

  pub data Step (s : State) : State → Type 0 where
    next : (i p : ℕ) → s.primary ≡ counting i → load p s.heap ≡ none → Step s (next_message s i p)
    send : (i p : ℕ) → s.primary ≡ sending i p → Step s (send_message s i p)
    receive : (i : ℕ) → s.primary ≡ waiting i → Step s (receive_reply s i)
    take : s.secondary ≡ polling → Step s (take_message s)
    make : (v q : ℕ) → s.secondary ≡ computed v → load q s.heap ≡ none → Step s (make_reply s v q)
    reply : (q : ℕ) → s.secondary ≡ replying q → Step s (send_reply s q)

  abbrev pub launch : Ring → Ring → State
  launch r r2 = record {
    ring = r;
    ring2 = r2;
    heap = [];
    primary = counting 0;
    secondary = polling;
    received = [];
    seen = [];
  }
