-- ===== src/SimpleRing.antt =====
-- rings/sample/simple_ring.c: a producer that counts on a ring, a consumer that prints, and a signal that
-- stops both. A step is one call of the ring or of malloc by one thread, with its own work up to its next
-- such call, or the producer's line behind the enqueue; the steps interleave in any order. What malloc
-- returns is a cell that is not allocated; the source does not test for NULL.
pub mod Cells
mod Producing
pub mod Counting
mod Tests
use dpdk_starter.Base.{
  ℕ, suc, ◌+◌, ◌≡◌, Bool, true, false, Option, none, some, List, [], ◌∷◌, ◌++◌, u64, if◌then◌else◌,
}
use dpdk_starter.Ring.{RingApi}
use dpdk_starter.Ring.Single.{dequeue}
use dpdk_starter.Ipc.Memory.{Heap, load, malloc, free}

-- Where the producer stands: at the head of its loop, at the enqueue, at the `printf` behind it.
pub data Producer : Type 0 where
  head : Producer
  enqueuing : ℕ → Producer
  reporting : ℕ → Producer

module _ (api : RingApi) where
  open api use {Ring, enqueue}

  -- `made` is the number of the producer's rounds; `reports` and `printed` log the lines `Enqueued: %lu`
  -- and `Dequeued: %lu`, `none` for what is read in a cell that has been freed.
  pub record State : Type 0 where
    pub ring : Ring
    pub keep_running : Bool
    pub counter : ℕ
    pub made : ℕ
    pub heap : Heap ℕ
    pub producer : Producer
    pub reports : List (Option ℕ)
    pub printed : List (Option ℕ)

  unfoldable pub handle_signal : State → State
  handle_signal s = record s { keep_running = false }

  -- The first two lines of the producer's loop, with `p` from malloc.
  unfoldable pub produce : State → ℕ → State
  produce s p = record s {
    counter = u64 (s.counter + 1);
    made = suc s.made;
    heap = malloc p s.counter s.heap;
    producer = enqueuing p;
  }

  -- The enqueue, and `free(data)` if it is refused.
  unfoldable pub enqueue_data : State → ℕ → State
  enqueue_data s p =
      let (ok, r) = enqueue s.ring p in
      if ok
      then record s { ring = r; producer = reporting p }
      else record s { ring = r; heap = free p s.heap; producer = head }

  unfoldable pub report_data : State → ℕ → State
  report_data s p = record s { reports = s.reports ++ (load p s.heap ∷ []); producer = head }

  -- A round of the consumer's loop.
  unfoldable pub consume : State → State
  consume s =
      let (got, r) = dequeue api s.ring in
      elim got [
        | none ↦ record s { ring = r }
        | some p ↦ record s {
          ring = r;
          heap = free p s.heap;
          printed = s.printed ++ (load p s.heap ∷ []);
        }
      ]

  pub data Step (s : State) : State → Type 0 where
    signal : Step s (handle_signal s)
    make :
        (p : ℕ)
        → s.producer ≡ head
        → s.keep_running ≡ true
        → load p s.heap ≡ none
        → Step s (produce s p)
    put : (p : ℕ) → s.producer ≡ enqueuing p → Step s (enqueue_data s p)
    report : (p : ℕ) → s.producer ≡ reporting p → Step s (report_data s p)
    take : s.keep_running ≡ true → Step s (consume s)

  abbrev pub launch : Ring → State
  launch r = record {
    ring = r;
    keep_running = true;
    counter = 0;
    made = 0;
    heap = [];
    producer = head;
    reports = [];
    printed = [];
  }
