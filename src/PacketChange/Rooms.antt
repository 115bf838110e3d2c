-- ===== src/PacketChange/Rooms.antt =====
-- An mbuf as its data and its rooms.
use dpdk_starter.Base.{
  ℕ, zero, suc, ◌+◌, ◌-◌, ◌≤◌, ◌<◌, ◌≡◌, refl, Option, none, some, List, ◌++◌, length, take, drop,
  replicate, ltb, if◌then◌else◌, arith,
}
use dpdk_starter.PacketChange.{overwrite, MbufApi}

pub record Buf : Type 0 where
  pub bytes : List ℕ
  pub head : ℕ
  pub tail : ℕ

length-replicate : (n x : ℕ) → length (replicate n x) ≡ n
length-replicate zero x = refl
length-replicate (suc n) x = omega (arith, length-replicate n x)

abbrev pub add_tail : Buf → ℕ → Option Buf
add_tail m n =
    if ltb m.tail n
    then none
    else some (record { bytes = m.bytes ++ replicate n 0; head = m.head; tail = m.tail - n })

abbrev pub add_head : Buf → ℕ → Option Buf
add_head m n =
    if ltb m.head n
    then none
    else some (record { bytes = replicate n 0 ++ m.bytes; head = m.head - n; tail = m.tail })

abbrev pub cut_head : Buf → ℕ → Buf
cut_head m n =
    if ltb (length m.bytes) n
    then m
    else record { bytes = drop n m.bytes; head = m.head + n; tail = m.tail }

abbrev pub cut_tail : Buf → ℕ → Buf
cut_tail m n =
    if ltb (length m.bytes) n
    then m
    else record { bytes = take (length m.bytes - n) m.bytes; head = m.head; tail = m.tail + n }

abbrev pub put_bytes : Buf → ℕ → List ℕ → Buf
put_bytes m i bytes = record m { bytes = overwrite i bytes m.bytes }

pub add_tail_room :
    (m : Buf) (n : ℕ)
    → n ≤ m.tail
    → (m' : Buf) × (junk : List ℕ) × (add_tail m n ≡ some m')
      × (length junk ≡ n)
      × (m'.bytes ≡ m.bytes ++ junk)
      × (m'.head ≡ m.head)
      × (m'.tail ≡ m.tail - n)
add_tail_room m n le = (
  record { bytes = m.bytes ++ replicate n 0; head = m.head; tail = m.tail - n },
  replicate n 0,
  ground arith,
  length-replicate n 0,
  refl,
  refl,
  refl,
)

pub add_head_room :
    (m : Buf) (n : ℕ)
    → n ≤ m.head
    → (m' : Buf) × (junk : List ℕ) × (add_head m n ≡ some m')
      × (length junk ≡ n)
      × (m'.bytes ≡ junk ++ m.bytes)
      × (m'.head ≡ m.head - n)
      × (m'.tail ≡ m.tail)
add_head_room m n le = (
  record { bytes = replicate n 0 ++ m.bytes; head = m.head - n; tail = m.tail },
  replicate n 0,
  ground arith,
  length-replicate n 0,
  refl,
  refl,
  refl,
)

pub add_tail_full : (m : Buf) (n : ℕ) → m.tail < n → add_tail m n ≡ none
add_tail_full m n less = ground arith

pub add_head_full : (m : Buf) (n : ℕ) → m.head < n → add_head m n ≡ none
add_head_full m n less = ground arith

pub cut_head_data :
    (m : Buf) (n : ℕ)
    → n ≤ length m.bytes
    → ((cut_head m n).bytes ≡ drop n m.bytes)
      × ((cut_head m n).head ≡ m.head + n)
      × ((cut_head m n).tail ≡ m.tail)
cut_head_data m n le = ground arith

pub cut_tail_data :
    (m : Buf) (n : ℕ)
    → n ≤ length m.bytes
    → ((cut_tail m n).bytes ≡ take (length m.bytes - n) m.bytes)
      × ((cut_tail m n).head ≡ m.head)
      × ((cut_tail m n).tail ≡ m.tail + n)
cut_tail_data m n le = ground arith

abbrev pub buffers : MbufApi
buffers = record {
  Mbuf = Buf;
  content = λ m. m.bytes;
  headroom = λ m. m.head;
  tailroom = λ m. m.tail;
  append = add_tail;
  prepend = add_head;
  adj = cut_head;
  trim = cut_tail;
  store = put_bytes;
  append_full = add_tail_full;
  append_room = add_tail_room;
  prepend_full = add_head_full;
  prepend_room = add_head_room;
  adj_data = cut_head_data;
  trim_data = cut_tail_data;
  store_data = λ m i bytes le. (refl, refl, refl);
}
