-- ===== src/PacketChange.antt =====
-- packet_change/main.c: `operations`, which changes the two ends of a packet, and
-- mempool_membuff/append_prependops.c, which does the same to an empty mbuf.
pub mod Rooms
pub mod Result
pub mod Simple
mod Tests
use dpdk_starter.Base.{
  ℕ, zero, suc, ◌+◌, ◌-◌, ◌≤◌, ◌<◌, ◌≡◌, Option, none, some, List, [], ◌∷◌, ◌++◌, length, take,
  drop, replicate, ltb, if◌then◌else◌,
}

-- Bytes stored at an offset of the data.
abbrev pub overwrite : ℕ → List ℕ → List ℕ → List ℕ
overwrite i bytes old = take i old ++ bytes ++ drop (i + length bytes) old

-- lib/mbuf of DPDK, which is not part of the repository: the data of an mbuf of one segment and the
-- room before and behind it. `append`, `prepend`, `adj` and `trim` return NULL or an error, and leave
-- the mbuf as it was, exactly if there is not enough room, or not enough data; the bytes that `append`
-- and `prepend` add are what memory holds there. `store` is a write of the program into the data.
pub record MbufApi : Type 1 where
  pub Mbuf : Type 0
  pub content : Mbuf → List ℕ
  pub headroom : Mbuf → ℕ
  pub tailroom : Mbuf → ℕ
  pub append : Mbuf → ℕ → Option Mbuf
  pub prepend : Mbuf → ℕ → Option Mbuf
  pub adj : Mbuf → ℕ → Mbuf
  pub trim : Mbuf → ℕ → Mbuf
  pub store : Mbuf → ℕ → List ℕ → Mbuf
  pub append_full : (m : Mbuf) (n : ℕ) → tailroom m < n → append m n ≡ none
  pub append_room :
      (m : Mbuf) (n : ℕ)
      → n ≤ tailroom m
      → (m' : Mbuf) × (junk : List ℕ) × (append m n ≡ some m')
        × (length junk ≡ n)
        × (content m' ≡ content m ++ junk)
        × (headroom m' ≡ headroom m)
        × (tailroom m' ≡ tailroom m - n)
  pub prepend_full : (m : Mbuf) (n : ℕ) → headroom m < n → prepend m n ≡ none
  pub prepend_room :
      (m : Mbuf) (n : ℕ)
      → n ≤ headroom m
      → (m' : Mbuf) × (junk : List ℕ) × (prepend m n ≡ some m')
        × (length junk ≡ n)
        × (content m' ≡ junk ++ content m)
        × (headroom m' ≡ headroom m - n)
        × (tailroom m' ≡ tailroom m)
  pub adj_data :
      (m : Mbuf) (n : ℕ)
      → n ≤ length (content m)
      → (content (adj m n) ≡ drop n (content m))
        × (headroom (adj m n) ≡ headroom m + n)
        × (tailroom (adj m n) ≡ tailroom m)
  pub trim_data :
      (m : Mbuf) (n : ℕ)
      → n ≤ length (content m)
      → (content (trim m n) ≡ take (length (content m) - n) (content m))
        × (headroom (trim m n) ≡ headroom m)
        × (tailroom (trim m n) ≡ tailroom m + n)
  pub store_data :
      (m : Mbuf) (i : ℕ) (bytes : List ℕ)
      → i + length bytes ≤ length (content m)
      → (content (store m i bytes) ≡ overwrite i bytes (content m))
        × (headroom (store m i bytes) ≡ headroom m)
        × (tailroom (store m i bytes) ≡ tailroom m)

-- "DPDK-MBUF" with its NUL, and the byte 'H'.
abbrev pub msg : List ℕ
msg = 68 ∷ 80 ∷ 68 ∷ 75 ∷ 45 ∷ 77 ∷ 66 ∷ 85 ∷ 70 ∷ 0 ∷ []

abbrev pub letter_h : ℕ
letter_h = 72

module _ (api : MbufApi) where
  open api use {Mbuf, content, append, prepend, adj, trim, store}

  -- The append, and the `memcpy` to the address that it returns; without it the program ends.
  unfoldable pub append_msg : Mbuf → Option Mbuf
  append_msg m = elim (append m (length msg)) [
    | none ↦ none
    | some m' ↦ some (store m' (length (content m)) msg)
  ]

  -- The prepend, and the `memset` if there is room.
  unfoldable pub prepend_header : Mbuf → Mbuf
  prepend_header m = elim (prepend m 10) [ none ↦ m | some m' ↦ store m' 0 (replicate 10 letter_h) ]

  -- The results of the last two calls are not looked at.
  unfoldable pub operations : Mbuf → Option Mbuf
  operations m = elim (append_msg m) [
    | none ↦ none
    | some m1 ↦ some (trim (adj (prepend_header m1) 5) 4)
  ]

  -- The same statements in mempool_membuff/append_prependops.c, on what `rte_pktmbuf_alloc` returns.
  unfoldable pub append_prepend : Option Mbuf → Option Mbuf
  append_prepend none = none
  append_prepend (some m) = operations m
