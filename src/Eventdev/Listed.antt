-- ===== src/Eventdev/Listed.antt =====
-- An event device that is a list of at most `limit` events, whose ports take the oldest one.
use dpdk_starter.Base.{
  ℕ, ◌≤◌, ◌≡◌, ◌≢◌, refl, Bool, true, false, Option, none, some, List, [], ◌∷◌, ◌++◌, length, ltb,
  All, if◌then◌else◌, arith,
}
use dpdk_starter.Eventdev.{Event, EventApi, IsRoomy, IsServing}

abbrev put : ℕ → List Event → Event → Bool × List Event
put limit d e = if ltb (length d) limit then (true, d ++ (e ∷ [])) else (false, d)

abbrev get : List Event → Option Event × List Event
get [] = (none, [])
get (e ∷ es) = (some e, es)

pub put_ok :
    (limit : ℕ) (d : List Event) (e : Event)
    → (put limit d e).0 ≡ true
    → (put limit d e).1 ≡ d ++ (e ∷ [])
put_ok limit d e h = ground arith

pub put_full :
    (limit : ℕ) (d : List Event) (e : Event) → (put limit d e).0 ≡ false → (put limit d e).1 ≡ d
put_full limit d e h = ground arith

put_refused :
    (limit : ℕ) (d : List Event) (e : Event) → (put limit d e).0 ≡ false → limit ≤ length d
put_refused limit d e h = ground arith

pub get-some :
    (d : List Event) (e : Event)
    → (get d).0 ≡ some e
    → (older : List Event) × (newer : List Event) × (d ≡ older ++ (e ∷ newer))
      × ((get d).1 ≡ older ++ newer)
      × All (λ o. o.flow_id ≢ e.flow_id) older
get-some [] e h = absurd (ground arith)
get-some (x ∷ xs) e h = ([], xs, ground arith, refl, tt)

pub get-none : (d : List Event) → (get d).0 ≡ none → (get d).1 ≡ d
get-none [] h = refl
get-none (x ∷ xs) h = absurd (ground arith)

get_serves : (d : List Event) → (get d).0 ≡ none → d ≡ []
get_serves [] h = refl
get_serves (x ∷ xs) h = absurd (ground arith)

abbrev pub device_of : ℕ → EventApi
device_of limit = record {
  Device = List Event;
  pending = λ d. d;
  enqueue = λ d port e. put limit d e;
  dequeue = λ d port. get d;
  pending-enqueue_ok = λ d port e h. put_ok limit d e h;
  pending-enqueue_full = λ d port e h. put_full limit d e h;
  pending-dequeue_some = λ d port e h. get-some d e h;
  pending-dequeue_none = λ d port h. get-none d h;
}

pub device_of-IsRoomy : (limit : ℕ) → IsRoomy (device_of limit) limit
device_of-IsRoomy limit = record { roomy = λ d port e h. put_refused limit d e h }

pub device_of-IsServing : (limit : ℕ) → IsServing (device_of limit)
device_of-IsServing limit = record { serving = λ d h k. get_serves d h }
