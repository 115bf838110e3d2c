-- ===== src/Ipc/FullDuplex/Protocol.antt =====
-- The protocol that both processes follow, with no rings and no memory: one message at a time is in
-- one place.
use dpdk_starter.Base.{ℕ, suc, ◌+◌, ◌*◌, ◌-◌, ◌≤◌, ◌<◌, ◌≡◌, List, [], ◌∷◌, arith}
use dpdk_starter.Ipc.Memory.{Heap, minus_one, mul_int}
use dpdk_starter.Ipc.Talk.{tens, numbers}
use dpdk_starter.Ipc.FullDuplex.{
  Primary, counting, sending, waiting, done, Secondary, polling, computed, replying, exited,
}

-- Message `i`, in the order of its way: to be sent, allocated at `p`, in the ring, taken, answered at
-- `q`, the answer in the second ring; then the message -1 in the ring, and the end.
pub data Phase : Type 0 where
  ready : ℕ → Phase
  allocated : ℕ → ℕ → Phase
  asked : ℕ → ℕ → Phase
  taken : ℕ → Phase
  answering : ℕ → ℕ → Phase
  answered : ℕ → ℕ → Phase
  stopping : ℕ → Phase
  over : Phase

-- What there is to see in a phase.
pub record View : Type 0 where
  pub ring : List ℕ
  pub ring2 : List ℕ
  pub heap : Heap ℕ
  pub primary : Primary
  pub secondary : Secondary
  pub received : List ℕ
  pub seen : List ℕ

abbrev pub view_of : Phase → View
view_of (ready i) = record {
  ring = [];
  ring2 = [];
  heap = [];
  primary = counting i;
  secondary = polling;
  received = tens i;
  seen = numbers i;
}
view_of (allocated i p) = record {
  ring = [];
  ring2 = [];
  heap = (p, i) ∷ [];
  primary = sending i p;
  secondary = polling;
  received = tens i;
  seen = numbers i;
}
view_of (asked i p) = record {
  ring = p ∷ [];
  ring2 = [];
  heap = (p, i) ∷ [];
  primary = waiting i;
  secondary = polling;
  received = tens i;
  seen = numbers i;
}
view_of (taken i) = record {
  ring = [];
  ring2 = [];
  heap = [];
  primary = waiting i;
  secondary = computed (mul_int i 10);
  received = tens i;
  seen = numbers (suc i);
}
view_of (answering i q) = record {
  ring = [];
  ring2 = [];
  heap = (q, mul_int i 10) ∷ [];
  primary = waiting i;
  secondary = replying q;
  received = tens i;
  seen = numbers (suc i);
}
view_of (answered i q) = record {
  ring = [];
  ring2 = q ∷ [];
  heap = (q, mul_int i 10) ∷ [];
  primary = waiting i;
  secondary = polling;
  received = tens i;
  seen = numbers (suc i);
}
view_of (stopping p) = record {
  ring = p ∷ [];
  ring2 = [];
  heap = (p, minus_one) ∷ [];
  primary = done;
  secondary = polling;
  received = tens 10;
  seen = numbers 10;
}
view_of over = record {
  ring = [];
  ring2 = [];
  heap = [];
  primary = done;
  secondary = exited;
  received = tens 10;
  seen = numbers 10;
}

-- The messages are numbered below ten.
abbrev pub InRange : Phase → Type 0
InRange (ready i) = i ≤ 10
InRange (allocated i p) = i < 10
InRange (asked i p) = i < 10
InRange (taken i) = i < 10
InRange (answering i q) = i < 10
InRange (answered i q) = i < 10
InRange (stopping p) = Unit {0}
InRange over = Unit {0}

-- One phase after the other.
pub data Next : Phase → Phase → Type 0 where
  allocates : (i p : ℕ) → i < 10 → Next (ready i) (allocated i p)
  asks : (i p : ℕ) → Next (allocated i p) (asked i p)
  takes : (i p : ℕ) → Next (asked i p) (taken i)
  answers : (i q : ℕ) → Next (taken i) (answering i q)
  replies : (i q : ℕ) → Next (answering i q) (answered i q)
  receives : (i q : ℕ) → Next (answered i q) (ready (suc i))
  stops : (i p : ℕ) → i ≡ 10 → Next (ready i) (stopping p)
  ends : (p : ℕ) → Next (stopping p) over

-- How many phases are to come.
abbrev pub left : Phase → ℕ
left (ready i) = 2 + 6 * (10 - i)
left (allocated i p) = 1 + 6 * (10 - i)
left (asked i p) = 6 * (10 - i)
left (taken i) = 6 * (10 - i) - 1
left (answering i q) = 6 * (10 - i) - 2
left (answered i q) = 6 * (10 - i) - 3
left (stopping p) = 1
left over = 0

pub Next-left : {c d : Phase} → InRange c → Next c d → left d < left c
Next-left r (allocates i p h) = omega arith
Next-left r (asks i p) = omega arith
Next-left r (takes i p) = omega arith
Next-left r (answers i q) = omega arith
Next-left r (replies i q) = omega arith
Next-left r (receives i q) = omega arith
Next-left r (stops i p h) = omega arith
Next-left r (ends p) = omega arith

pub Next-InRange : {c d : Phase} → InRange c → Next c d → InRange d
Next-InRange r (allocates i p h) = h
Next-InRange r (asks i p) = r
Next-InRange r (takes i p) = r
Next-InRange r (answers i q) = r
Next-InRange r (replies i q) = r
Next-InRange r (receives i q) = omega arith
Next-InRange r (stops i p h) = tt
Next-InRange r (ends p) = tt
