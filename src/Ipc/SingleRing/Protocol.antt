-- ===== src/Ipc/SingleRing/Protocol.antt =====
-- The protocol that both processes follow, with no ring: one message at a time is in one place, in
-- the ring or with a process that looks at it.
use dpdk_starter.Base.{ℕ, suc, ◌≤◌, ◌<◌, ◌≡◌, Option, none, some, List, [], ◌∷◌, arith}
use dpdk_starter.Ipc.Memory.{Heap, mul_int}
use dpdk_starter.Ipc.Talk.{tens, numbers}
use dpdk_starter.Ipc.SingleRing.{
  proc_a, proc_b, msg_req, msg_resp, msg_exit, Msg, Primary, counting, sending, waiting, returning,
  done, Secondary, polling, putting_back, requested, replying, reporting, exited,
}

-- Message `i`, in the order of its way: to be sent, allocated at `p`, in the ring, with the primary
-- that will put it back, with the secondary, answered at `q`, the answer in the ring, with the
-- secondary that will put it back; then the exit message in the ring, and the end. The option is the
-- response that the secondary has still to report.
pub data Phase : Type 0 where
  ready : ℕ → Option ℕ → Phase
  allocated : ℕ → ℕ → Option ℕ → Phase
  asked : ℕ → ℕ → Option ℕ → Phase
  borrowed : ℕ → ℕ → Option ℕ → Phase
  taken : ℕ → ℕ → Phase
  answering : ℕ → ℕ → Phase
  answered : ℕ → ℕ → Option ℕ → Phase
  kept : ℕ → ℕ → Phase
  stopping : ℕ → Option ℕ → Phase
  over : Phase

-- The secondary between two messages.
abbrev pub idle : Option ℕ → Secondary
idle none = polling
idle (some q) = reporting q

-- What there is to see in a phase.
pub record View : Type 0 where
  pub ring : List ℕ
  pub heap : Heap Msg
  pub primary : Primary
  pub secondary : Secondary
  pub received : List ℕ
  pub seen : List ℕ

abbrev pub request : ℕ → Msg
request i = record { src_id = proc_a; dst_id = proc_b; kind = msg_req; value = i }

abbrev pub response : ℕ → Msg
response i = record { src_id = proc_b; dst_id = proc_a; kind = msg_resp; value = mul_int i 10 }

abbrev pub exit_msg : Msg
exit_msg = record { src_id = proc_a; dst_id = proc_b; kind = msg_exit; value = 0 }

abbrev pub view_of : Phase → View
view_of (ready i o) = record {
  ring = [];
  heap = [];
  primary = counting i;
  secondary = idle o;
  received = tens i;
  seen = numbers i;
}
view_of (allocated i p o) = record {
  ring = [];
  heap = (p, request i) ∷ [];
  primary = sending i p;
  secondary = idle o;
  received = tens i;
  seen = numbers i;
}
view_of (asked i p o) = record {
  ring = p ∷ [];
  heap = (p, request i) ∷ [];
  primary = waiting i;
  secondary = idle o;
  received = tens i;
  seen = numbers i;
}
view_of (borrowed i p o) = record {
  ring = [];
  heap = (p, request i) ∷ [];
  primary = returning i p;
  secondary = idle o;
  received = tens i;
  seen = numbers i;
}
view_of (taken i p) = record {
  ring = [];
  heap = (p, request i) ∷ [];
  primary = waiting i;
  secondary = requested p;
  received = tens i;
  seen = numbers (suc i);
}
view_of (answering i q) = record {
  ring = [];
  heap = (q, response i) ∷ [];
  primary = waiting i;
  secondary = replying q;
  received = tens i;
  seen = numbers (suc i);
}
view_of (answered i q o) = record {
  ring = q ∷ [];
  heap = (q, response i) ∷ [];
  primary = waiting i;
  secondary = idle o;
  received = tens i;
  seen = numbers (suc i);
}
view_of (kept i q) = record {
  ring = [];
  heap = (q, response i) ∷ [];
  primary = waiting i;
  secondary = putting_back q;
  received = tens i;
  seen = numbers (suc i);
}
view_of (stopping p o) = record {
  ring = p ∷ [];
  heap = (p, exit_msg) ∷ [];
  primary = done;
  secondary = idle o;
  received = tens 10;
  seen = numbers 10;
}
view_of over = record {
  ring = [];
  heap = [];
  primary = done;
  secondary = exited;
  received = tens 10;
  seen = numbers 10;
}

-- The messages are numbered below ten.
abbrev pub InRange : Phase → Type 0
InRange (ready i o) = i ≤ 10
InRange (allocated i p o) = i < 10
InRange (asked i p o) = i < 10
InRange (borrowed i p o) = i < 10
InRange (taken i p) = i < 10
InRange (answering i q) = i < 10
InRange (answered i q o) = i < 10
InRange (kept i q) = i < 10
InRange (stopping p o) = Unit {0}
InRange over = Unit {0}

-- One phase after the other. The secondary's report may come at any time before its next message.
pub data Next : Phase → Phase → Type 0 where
  allocates : (i p : ℕ) (o : Option ℕ) → i < 10 → Next (ready i o) (allocated i p o)
  asks : (i p : ℕ) (o : Option ℕ) → Next (allocated i p o) (asked i p o)
  borrows : (i p : ℕ) (o : Option ℕ) → Next (asked i p o) (borrowed i p o)
  returns : (i p : ℕ) (o : Option ℕ) → Next (borrowed i p o) (asked i p o)
  takes : (i p : ℕ) → Next (asked i p none) (taken i p)
  answers : (i p q : ℕ) → Next (taken i p) (answering i q)
  replies : (i q : ℕ) → Next (answering i q) (answered i q (some q))
  keeps : (i q : ℕ) → Next (answered i q none) (kept i q)
  puts : (i q : ℕ) → Next (kept i q) (answered i q none)
  receives : (i q : ℕ) (o : Option ℕ) → Next (answered i q o) (ready (suc i) o)
  stops : (i p : ℕ) (o : Option ℕ) → i ≡ 10 → Next (ready i o) (stopping p o)
  ends : (p : ℕ) → Next (stopping p none) over
  reports_ready : (i q : ℕ) → Next (ready i (some q)) (ready i none)
  reports_allocated : (i p q : ℕ) → Next (allocated i p (some q)) (allocated i p none)
  reports_asked : (i p q : ℕ) → Next (asked i p (some q)) (asked i p none)
  reports_borrowed : (i p q : ℕ) → Next (borrowed i p (some q)) (borrowed i p none)
  reports_answered : (i p q : ℕ) → Next (answered i p (some q)) (answered i p none)
  reports_stopping : (p q : ℕ) → Next (stopping p (some q)) (stopping p none)

pub Next-InRange : {c d : Phase} → InRange c → Next c d → InRange d
Next-InRange r (allocates i p o h) = h
Next-InRange r (asks i p o) = r
Next-InRange r (borrows i p o) = r
Next-InRange r (returns i p o) = r
Next-InRange r (takes i p) = r
Next-InRange r (answers i p q) = r
Next-InRange r (replies i q) = r
Next-InRange r (keeps i q) = r
Next-InRange r (puts i q) = r
Next-InRange r (receives i q o) = omega arith
Next-InRange r (stops i p o h) = tt
Next-InRange r (ends p) = tt
Next-InRange r (reports_ready i q) = r
Next-InRange r (reports_allocated i p q) = r
Next-InRange r (reports_asked i p q) = r
Next-InRange r (reports_borrowed i p q) = r
Next-InRange r (reports_answered i p q) = r
Next-InRange r (reports_stopping p q) = tt
