-- ===== src/LcoreRing.antt =====
-- practice/ring.c: one lcore sends a number over a ring, another waits for it, and the main lcore frees
-- the ring. A step is one call of the ring, of rte_malloc or of `rte_eal_wait_lcore` by one lcore, with
-- its own work up to its next such call; the steps interleave in any order. What rte_malloc returns is a
-- cell that is not allocated; the source does not test for NULL. The main lcore is lcore 0, for which
-- `rte_eal_wait_lcore` does not wait.
pub mod Runs
mod Tests
use dpdk_starter.Base.{ℕ, ◌≡◌, Bool, true, false, Option, none, some, [], if◌then◌else◌}
use dpdk_starter.Ring.{RingApi}
use dpdk_starter.Ring.Single.{dequeue}
use dpdk_starter.Ipc.Memory.{Heap, load, malloc, free}

-- Where `handler` stands: at rte_malloc, at the enqueue, or returned.
pub data Sender : Type 0 where
  allocating : Sender
  enqueuing : ℕ → Sender
  sent : Sender

-- Where `handler2` stands: at the `while`, returned with what it has printed, or at a call of a ring that
-- has been freed.
pub data Receiver : Type 0 where
  polling : Receiver
  printed : Option ℕ → Receiver
  faulted : Receiver

-- Where `main` stands behind the launches: at the two waits, or behind `rte_ring_free`.
pub data Main : Type 0 where
  waiting_0 waiting_1 freeing ended : Main

module _ (api : RingApi) where
  open api use {Ring, enqueue}

  pub record State : Type 0 where
    pub ring : Ring
    pub ring_freed : Bool
    pub heap : Heap ℕ
    pub sender : Sender
    pub receiver : Receiver
    pub main : Main

  -- `rte_malloc`, and `*data=20`
  unfoldable pub allocate : State → ℕ → State
  allocate s p = record s { heap = malloc p 20 s.heap; sender = enqueuing p }

  -- `rte_ring_enqueue`, whose result is not looked at.
  unfoldable pub send : State → ℕ → State
  send s p = record s { ring = (enqueue s.ring p).1; sender = sent }

  -- A round of `while(rte_ring_dequeue(ring2,&ptr)<0)`, and the print behind it.
  unfoldable pub receive : State → State
  receive s =
      if s.ring_freed
      then record s { receiver = faulted }
      else (let (got, r) = dequeue api s.ring in
          elim got [
            | none ↦ record s { ring = r }
            | some p ↦ record s { ring = r; receiver = printed (load p s.heap) }
          ])

  -- `rte_eal_wait_lcore(0)` and `rte_eal_wait_lcore(1)`
  unfoldable pub wait_main : State → State
  wait_main s = record s { main = waiting_1 }

  unfoldable pub wait_sender : State → State
  wait_sender s = record s { main = freeing }

  -- `rte_ring_free`
  unfoldable pub free_ring : State → State
  free_ring s = record s { ring_freed = true; main = ended }

  pub data Step (s : State) : State → Type 0 where
    allocates : (p : ℕ) → s.sender ≡ allocating → load p s.heap ≡ none → Step s (allocate s p)
    sends : (p : ℕ) → s.sender ≡ enqueuing p → Step s (send s p)
    receives : s.receiver ≡ polling → Step s (receive s)
    waits_main : s.main ≡ waiting_0 → Step s (wait_main s)
    waits_sender : s.main ≡ waiting_1 → s.sender ≡ sent → Step s (wait_sender s)
    frees : s.main ≡ freeing → Step s (free_ring s)

  abbrev pub launch : Ring → State
  launch r = record {
    ring = r;
    ring_freed = false;
    heap = [];
    sender = allocating;
    receiver = polling;
    main = waiting_0;
  }
