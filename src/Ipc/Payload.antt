-- ===== src/Ipc/Payload.antt =====
-- inter_process_comm/sample_rte_mp: secondary.c sends one message of four bytes over rte_mp, and primary.c
-- waits until its callback has printed one.
mod Tests
use dpdk_starter.Base.{
  ℕ, zero, suc, ◌+◌, ◌%◌, ◌≡◌, refl, Bool, true, false, ap₂, Bool-cases, ◌⊎◌, inl, inr, Option,
  none, some, List, [], ◌∷◌, ◌++◌, if◌then◌else◌, arith,
}
use dpdk_starter.Ipc.Runs.{Star, Star-invariant}

-- `len_param` and the bytes of `param`, up to the last that is set; the others are 0.
pub record Message : Type 0 where
  pub len_param : ℕ
  pub param : List ℕ

abbrev get : List ℕ → ℕ → ℕ
get [] i = 0
get (x ∷ xs) zero = x
get (x ∷ xs) (suc i) = get xs i

-- `send_message` of the secondary: each byte is a `uint8_t`.
unfoldable pub send_message : Message
send_message =
    let value : ℕ = 42 in
    record {
      len_param = 4;
      param = value % 256 ∷ (value + 1) % 256 ∷ (value + 2) % 256 ∷ (value + 3) % 256 ∷ [];
    }

-- The `for` of `mp_message_handler`, from `i` on: each line has the index and the byte.
abbrev pub print_params : Message → ℕ → ℕ → List (ℕ × ℕ)
print_params msg i zero = []
print_params msg i (suc n) = (i, get msg.param i) ∷ print_params msg (i + 1) n

pub data Secondary : Type 0 where
  starting returned : Secondary

-- `in_flight`: the message has been sent and not been handled.
pub record State : Type 0 where
  pub out : Bool
  pub finished : Bool
  pub secondary : Secondary
  pub in_flight : Option Message
  pub printed : List (ℕ × ℕ)

-- `mp_message_handler` of the primary, which DPDK calls with a message for "sample_mp".
unfoldable pub mp_message_handler : State → Message → State
mp_message_handler s msg = record s {
  out = true;
  in_flight = none;
  printed = s.printed ++ print_params msg 0 msg.len_param;
}

-- A round of `while (!out)`.
unfoldable pub wait_round : State → State
wait_round s = if s.out then record s { finished = true } else s

-- The call of `send_message` in the secondary: `sent` says whether `rte_mp_sendmsg` succeeds.
unfoldable pub secondary_main : State → Bool → State
secondary_main s sent =
    let s' = record s { secondary = returned } in
    if sent then record s' { in_flight = some send_message } else s'

pub data Step (s : State) : State → Type 0 where
  sends : (sent : Bool) → s.secondary ≡ starting → Step s (secondary_main s sent)
  handles :
      (msg : Message)
      → s.in_flight ≡ some msg
      → s.finished ≡ false
      → Step s (mp_message_handler s msg)
  waits : s.finished ≡ false → Step s (wait_round s)

abbrev pub launch : State
launch = record {
  out = false;
  finished = false;
  secondary = starting;
  in_flight = none;
  printed = [];
}

abbrev pub payload : List (ℕ × ℕ)
payload = (0, 42) ∷ (1, 43) ∷ (2, 44) ∷ (3, 45) ∷ []

record IsHeard (s : State) : Type 0 where
  silent : s.out ≡ false → s.printed ≡ []
  heard : s.out ≡ true → (s.printed ≡ payload) × (s.secondary ≡ returned) × (s.in_flight ≡ none)
  early : s.secondary ≡ starting → s.in_flight ≡ none
  flying : (msg : Message) → s.in_flight ≡ some msg → msg ≡ send_message
  over : s.finished ≡ true → s.out ≡ true

Secondary-cases : (p : Secondary) → (p ≡ starting) ⊎ (p ≡ returned)
Secondary-cases starting = inl refl
Secondary-cases returned = inr refl

secondary_main-IsHeard :
    (s : State) (sent : Bool) → s.secondary ≡ starting → IsHeard s → IsHeard (secondary_main s sent)
unfolding secondary_main
secondary_main-IsHeard s sent e h = ground arith

mp_message_handler-IsHeard :
    (s : State) (msg : Message)
    → s.in_flight ≡ some msg
    → IsHeard s
    → IsHeard (mp_message_handler s msg)
unfolding mp_message_handler send_message
mp_message_handler-IsHeard s msg e h =
    let quiet : s.out ≡ false = ground (arith, h.heard, Bool-cases s.out) in
    let gone : s.secondary ≡ returned = ground (arith, h.early, Secondary-cases s.secondary) in
    record {
      silent = λ f. cc;
      heard = λ f. (
        ap₂ (λ old m. old ++ print_params m 0 m.len_param) (h.silent quiet) (h.flying msg e),
        gone,
        refl,
      );
      early = λ f. refl;
      flying = λ m f. cc;
      over = λ f. refl;
    }

wait_round-IsHeard : (s : State) → IsHeard s → IsHeard (wait_round s)
unfolding wait_round
wait_round-IsHeard s h = ground arith

Step-IsHeard : (s t : State) → IsHeard s → Step s t → IsHeard t
Step-IsHeard s t h (sends sent e) = secondary_main-IsHeard s sent e h
Step-IsHeard s t h (handles msg e on) = mp_message_handler-IsHeard s msg e h
Step-IsHeard s t h (waits on) = wait_round-IsHeard s h

-- In every interleaving: the primary has printed nothing, or the four bytes 42 to 45 with their indices,
-- once; and if it has returned, it has printed them, and the secondary has sent its message.
pub payload_heard :
    {s : State}
    → Star Step launch s
    → ((s.printed ≡ []) ⊎ (s.printed ≡ payload))
      × (s.finished ≡ true → (s.printed ≡ payload) × (s.secondary ≡ returned))
payload_heard {s} ss =
    let start : IsHeard launch = record {
      silent = λ f. refl;
      heard = λ f. cc;
      early = λ f. refl;
      flying = λ m f. cc;
      over = λ f. cc;
    } in
    let h = Star-invariant {P = IsHeard} Step-IsHeard start ss in
    (
      elim (Bool-cases s.out) [ inl on ↦ inr ((h.heard on).0) | inr off ↦ inl (h.silent off) ],
      λ f. ((h.heard (h.over f)).0, (h.heard (h.over f)).1),
    )

record IsLost (s : State) : Type 0 where
  waiting : s.finished ≡ false
  off : s.out ≡ false
  none_sent : s.in_flight ≡ none
  gone : s.secondary ≡ returned
  silent : s.printed ≡ []

Step-IsLost : (s t : State) → IsLost s → Step s t → IsLost t
unfolding secondary_main mp_message_handler wait_round
Step-IsLost s t h (sends sent e) = absurd (ground (arith, h.gone))
Step-IsLost s t h (handles msg e on) = absurd (ground (arith, h.none_sent))
Step-IsLost s t h (waits on) = ground arith

start-IsLost : IsLost (secondary_main launch false)
unfolding secondary_main
start-IsLost = record { waiting = refl; off = refl; none_sent = refl; gone = refl; silent = refl }

-- If the message cannot be sent, the primary waits for ever: no step leads out of its wait.
pub payload_lost :
    {s : State}
    → Star Step (secondary_main launch false) s
    → (s.finished ≡ false) × (s.printed ≡ [])
payload_lost {s} ss =
    let h = Star-invariant {P = IsLost} Step-IsLost start-IsLost ss in (h.waiting, h.silent)
