-- ===== src/Ipc/Through.antt =====
-- inter_process_comm/through_rte_ring: primary.c sends ten numbers over a ring, each in a cell from
-- rte_malloc, and secondary.c prints and frees them. A step is one call of the ring or of rte_malloc by
-- one process, with its own work up to its next such call; the steps interleave in any order, from the
-- creation of the ring on. What rte_malloc returns is a cell that is not allocated; the source does not
-- test for NULL.
pub mod Passing
pub mod Ending
mod Tests
use dpdk_starter.Base.{
  ℕ, suc, ◌+◌, ◌≡◌, Option, none, some, List, [], ◌∷◌, ◌++◌, ltb, if◌then◌else◌,
}
use dpdk_starter.Ring.{RingApi}
use dpdk_starter.Ring.Single.{dequeue}
use dpdk_starter.Ipc.Memory.{Heap, load, malloc, free}

-- Where primary.c stands: at the head of the `for` with `i`, at the `while` with the message, or at the
-- end.
pub data Primary : Type 0 where
  counting : ℕ → Primary
  sending : ℕ → ℕ → Primary
  done : Primary

-- Where secondary.c stands: at the lookup of the ring, or at the `for`.
pub data Secondary : Type 0 where
  looking polling : Secondary

module _ (api : RingApi) where
  open api use {Ring, enqueue}

  -- `received` logs the lines `received %d`, `none` for what is read in a cell that has been freed.
  pub record State : Type 0 where
    pub ring : Ring
    pub heap : Heap ℕ
    pub primary : Primary
    pub secondary : Secondary
    pub received : List (Option ℕ)

  -- The head of the `for`, with `p` from rte_malloc.
  unfoldable pub next_message : State → ℕ → ℕ → State
  next_message s i p =
      if ltb i 10
      then record s { heap = malloc p i s.heap; primary = sending i p }
      else record s { primary = done }

  -- `while (rte_ring_enqueue(ring, msg) < 0)`
  unfoldable pub send_message : State → ℕ → ℕ → State
  send_message s i p =
      let (ok, r) = enqueue s.ring p in
      if ok then record s { ring = r; primary = counting (suc i) } else record s { ring = r }

  -- `while (!ring)`
  unfoldable pub lookup_ring : State → State
  lookup_ring s = record s { secondary = polling }

  -- A round of the secondary's `for`.
  unfoldable pub take_message : State → State
  take_message s =
      let (got, r) = dequeue api s.ring in
      elim got [
        | none ↦ record s { ring = r }
        | some p ↦ record s {
          ring = r;
          heap = free p s.heap;
          received = s.received ++ (load p s.heap ∷ []);
        }
      ]

  pub data Step (s : State) : State → Type 0 where
    next : (i p : ℕ) → s.primary ≡ counting i → load p s.heap ≡ none → Step s (next_message s i p)
    send : (i p : ℕ) → s.primary ≡ sending i p → Step s (send_message s i p)
    find : s.secondary ≡ looking → Step s (lookup_ring s)
    take : s.secondary ≡ polling → Step s (take_message s)

  abbrev pub launch : Ring → State
  launch r = record {
    ring = r;
    heap = [];
    primary = counting 0;
    secondary = looking;
    received = [];
  }
