-- ===== src/Ipc/SingleRing.antt =====
-- inter_process_comm/single_ring_full_duplex: both processes put messages on one ring and take them
-- off it; a process that takes a message for the other one puts it back. A step is one call of the
-- ring or of rte_malloc by one process, with its own work up to its next such call, or the
-- secondary's last line of the loop; the steps interleave in any order. What rte_malloc returns is a
-- cell that is not allocated; the source does not test for NULL.
pub mod Protocol
pub mod Refine
pub mod Ending
pub mod Order
use dpdk_starter.Base.{
  ℕ, ◌+◌, ◌≡◌, Bool, true, false, not, Option, none, some, List, [], ◌∷◌, ◌++◌, ltb, ◌==◌,
  if◌then◌else◌, map,
}
use mathlib.Core.Option as Option
use dpdk_starter.Ring.{RingApi}
use dpdk_starter.Ring.Single.{dequeue}
use dpdk_starter.Ipc.Memory.{Heap, load, malloc, free, mul_int}

abbrev pub proc_a : ℕ
proc_a = 1

abbrev pub proc_b : ℕ
proc_b = 2

pub data MsgType : Type 0 where
  msg_req : MsgType
  msg_resp : MsgType
  msg_exit : MsgType

pub record Msg : Type 0 where
  pub src_id : ℕ
  pub dst_id : ℕ
  pub kind : MsgType
  pub value : ℕ

-- Where primary.c stands: at the head of the `for` with `i`, at the `while` with the message, in the
-- inner `for`, there with a message to put back, at the end, or at a read of a freed cell.
pub data Primary : Type 0 where
  counting : ℕ → Primary
  sending : ℕ → ℕ → Primary
  waiting : ℕ → Primary
  returning : ℕ → ℕ → Primary
  done : Primary
  faulted : Primary

-- Where secondary.c stands: at the head of the `for`, with a message to put back, with a request, at
-- the `while` with the response, at the `printf` behind it, at the end, or at a read of a freed cell.
pub data Secondary : Type 0 where
  polling : Secondary
  putting_back : ℕ → Secondary
  requested : ℕ → Secondary
  replying : ℕ → Secondary
  reporting : ℕ → Secondary
  exited : Secondary
  crashed : Secondary

module _ (api : RingApi) where
  open api use {Ring, enqueue}

  -- `received` and `seen` log the lines `received %d` of the two processes, `reports` the lines
  -- `sent %d` of the secondary, `none` for what it reads in a cell that has been freed.
  pub record State : Type 0 where
    pub ring : Ring
    pub heap : Heap Msg
    pub primary : Primary
    pub secondary : Secondary
    pub received : List ℕ
    pub seen : List ℕ
    pub reports : List (Option ℕ)

  -- Behind the `for`, with `p` from rte_malloc; the result of the enqueue is not looked at.
  unfoldable pub send_exit : State → ℕ → State
  send_exit s p = record s {
    heap =
        malloc p (record { src_id = proc_a; dst_id = proc_b; kind = msg_exit; value = 0 }) s.heap;
    ring = (enqueue s.ring p).1;
    primary = done;
  }

  -- The head of the `for`, with `p` from rte_malloc for the request, or for the exit behind it.
  unfoldable pub next_message : State → ℕ → ℕ → State
  next_message s i p =
      if ltb i 10
      then record s {
        heap =
            malloc p (record { src_id = proc_a; dst_id = proc_b; kind = msg_req; value = i })
              s.heap;
        primary = sending i p;
      }
      else send_exit s p

  -- `while (rte_ring_enqueue(ring, m) < 0)`
  unfoldable pub send_message : State → ℕ → ℕ → State
  send_message s i p =
      let (ok, r) = enqueue s.ring p in
      record s { ring = r; primary = if ok then waiting i else sending i p }

  -- A response ends the wait; another message for this process is left where it is.
  unfoldable pub take_response : State → ℕ → ℕ → Msg → State
  take_response s i q m = elim m.kind [
    | msg_req ↦ s
    | msg_resp ↦ record s {
      heap = free q s.heap;
      received = s.received ++ (m.value ∷ []);
      primary = counting (i + 1);
    }
    | msg_exit ↦ s
  ]

  -- One round of the inner `for`, up to the call that puts a message back.
  unfoldable pub poll_response : State → ℕ → State
  poll_response s i =
      let (got, r) = dequeue api s.ring in
      let s' = record s { ring = r } in
      elim got [
        | none ↦ s'
        | some q ↦ elim (load q s.heap) [
          | none ↦ record s' { primary = faulted }
          | some m ↦
              if not (m.dst_id == proc_a)
              then record s' { primary = returning i q }
              else take_response s' i q m
        ]
      ]

  unfoldable pub return_message : State → ℕ → ℕ → State
  return_message s i q = record s { ring = (enqueue s.ring q).1; primary = waiting i }

  unfoldable pub take_request : State → ℕ → Msg → State
  take_request s p m = elim m.kind [
    | msg_req ↦ record s { seen = s.seen ++ (m.value ∷ []); secondary = requested p }
    | msg_resp ↦ s
    | msg_exit ↦ record s { heap = free p s.heap; secondary = exited }
  ]

  -- One round of the secondary's `for`, up to its next call.
  unfoldable pub poll_request : State → State
  poll_request s =
      let (got, r) = dequeue api s.ring in
      let s' = record s { ring = r } in
      elim got [
        | none ↦ s'
        | some p ↦ elim (load p s.heap) [
          | none ↦ record s' { secondary = crashed }
          | some m ↦
              if not (m.dst_id == proc_b)
              then record s' { secondary = putting_back p }
              else take_request s' p m
        ]
      ]

  unfoldable pub put_back : State → ℕ → State
  put_back s p = record s { ring = (enqueue s.ring p).1; secondary = polling }

  -- The response is filled, and the request freed, with `q` from rte_malloc.
  unfoldable pub make_response : State → ℕ → ℕ → State
  make_response s p q = elim (load p s.heap) [
    | none ↦ record s { secondary = crashed }
    | some m ↦ record s {
      heap = free p (
          malloc q
            (record {
              src_id = proc_b;
              dst_id = proc_a;
              kind = msg_resp;
              value = mul_int m.value 10;
            })
            s.heap);
      secondary = replying q;
    }
  ]

  -- `while (rte_ring_enqueue(ring, resp) < 0)`
  unfoldable pub send_response : State → ℕ → State
  send_response s q =
      let (ok, r) = enqueue s.ring q in
      record s { ring = r; secondary = if ok then reporting q else replying q }

  -- `printf("Secondary: sent %d\n", resp->value)`
  unfoldable pub report_response : State → ℕ → State
  report_response s q = record s {
    reports = s.reports ++ (Option.map (λ m. m.value) (load q s.heap) ∷ []);
    secondary = polling;
  }

  pub data Step (s : State) : State → Type 0 where
    next : (i p : ℕ) → s.primary ≡ counting i → load p s.heap ≡ none → Step s (next_message s i p)
    send : (i p : ℕ) → s.primary ≡ sending i p → Step s (send_message s i p)
    poll_a : (i : ℕ) → s.primary ≡ waiting i → Step s (poll_response s i)
    back_a : (i q : ℕ) → s.primary ≡ returning i q → Step s (return_message s i q)
    poll_b : s.secondary ≡ polling → Step s (poll_request s)
    back_b : (p : ℕ) → s.secondary ≡ putting_back p → Step s (put_back s p)
    make :
        (p q : ℕ) → s.secondary ≡ requested p → load q s.heap ≡ none → Step s (make_response s p q)
    reply : (q : ℕ) → s.secondary ≡ replying q → Step s (send_response s q)
    report : (q : ℕ) → s.secondary ≡ reporting q → Step s (report_response s q)

  abbrev pub launch : Ring → State
  launch r = record {
    ring = r;
    heap = [];
    primary = counting 0;
    secondary = polling;
    received = [];
    seen = [];
    reports = [];
  }
