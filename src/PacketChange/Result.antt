-- ===== src/PacketChange/Result.antt =====
-- What `operations` makes of a packet.
use dpdk_starter.Base.{
  ℕ, zero, suc, ◌+◌, ◌-◌, ◌≤◌, ◌<◌, ◌≡◌, refl, sym, ap, ◌∙◌, Bool-cases, inl, inr, Option, none,
  some, List, [], ◌∷◌, ◌++◌, length, length-append, take, drop, replicate, leb, if◌then◌else◌,
  arith,
}
use mathlib.Core.List.{append_assoc, append-nil}
use dpdk_starter.PacketChange.{
  overwrite, MbufApi, msg, letter_h, append_msg, prepend_header, operations,
}

take-append : (xs ys : List ℕ) → take (length xs) (xs ++ ys) ≡ xs
take-append [] ys = refl
take-append (x ∷ xs) ys = ap (λ r. x ∷ r) (take-append xs ys)

drop-all : (n : ℕ) (xs : List ℕ) → length xs ≤ n → drop n xs ≡ []
drop-all zero [] le = refl
drop-all zero (x ∷ xs) le = absurd (omega arith)
drop-all (suc n) [] le = refl
drop-all (suc n) (x ∷ xs) le = drop-all n xs (omega arith)

drop-append : (xs ys : List ℕ) → drop (length xs) (xs ++ ys) ≡ ys
drop-append [] ys = refl
drop-append (x ∷ xs) ys = drop-append xs ys

-- Bytes stored over the last ones, and over the first ones.
pub overwrite-end :
    (xs junk bytes : List ℕ)
    → length junk ≡ length bytes
    → overwrite (length xs) bytes (xs ++ junk) ≡ xs ++ bytes
overwrite-end xs junk bytes e =
    ap (λ r. r ++ bytes ++ drop (length xs + length bytes) (xs ++ junk)) (take-append xs junk)
    ∙ ap (λ r. xs ++ bytes ++ r)
        (drop-all (length xs + length bytes) (xs ++ junk) (omega (arith, length-append xs junk)))
    ∙ append-nil (xs ++ bytes)

overwrite-front :
    (junk bytes xs : List ℕ)
    → length junk ≡ length bytes
    → overwrite 0 bytes (junk ++ xs) ≡ bytes ++ xs
overwrite-front junk bytes xs e =
    let front : 0 + length bytes ≡ length junk = omega arith in
    ap (λ n. bytes ++ drop n (junk ++ xs)) front ∙ ap (λ r. bytes ++ r) (drop-append junk xs)

drop-append_le : (n : ℕ) (xs ys : List ℕ) → n ≤ length xs → drop n (xs ++ ys) ≡ drop n xs ++ ys
drop-append_le zero xs ys le = refl
drop-append_le (suc n) [] ys le = absurd (omega arith)
drop-append_le (suc n) (x ∷ xs) ys le = drop-append_le n xs ys (omega arith)

-- Without the last ones.
take-front : (xs ys : List ℕ) → take (length (xs ++ ys) - length ys) (xs ++ ys) ≡ xs
take-front xs ys =
    let front : length (xs ++ ys) - length ys ≡ length xs = omega (arith, length-append xs ys) in
    ap (λ n. take n (xs ++ ys)) front ∙ take-append xs ys

-- "DPDK-M" and "BUF" with its NUL.
abbrev pub kept : List ℕ
kept = take 6 msg

abbrev cut : List ℕ
cut = drop 6 msg

module _ (api : MbufApi) where
  open api use {
    Mbuf, content, headroom, tailroom, append_full, append_room, prepend_full, prepend_room,
    adj_data, trim_data, store_data, append, prepend, adj, trim, store,
  }

  -- The data and the rooms of an mbuf.
  abbrev pub Has : Mbuf → List ℕ → ℕ → ℕ → Type 0
  Has m bytes h t = (content m ≡ bytes) × (headroom m ≡ h) × (tailroom m ≡ t)

  append_msg_lem :
      (m : Mbuf)
      → 10 ≤ tailroom m
      → (m' : Mbuf) × (append_msg api m ≡ some m')
        × Has m' (content m ++ msg) (headroom m) (tailroom m - 10)
  unfolding append_msg
  append_msg_lem m room =
      let (m1, junk, e, l, d, h, t) = append_room m 10 room in
      let (d', h', t') =
        store_data m1 (length (content m)) msg
          (omega (arith, ap length d, length-append (content m) junk, l)) in
      (
        store m1 (length (content m)) msg,
        ground (arith, e),
        (
          d' ∙ ap (overwrite (length (content m)) msg) d ∙ overwrite-end (content m) junk msg l,
          h' ∙ h,
          t' ∙ t,
        ),
      )

  -- What stands before the data then.
  abbrev pub header : Mbuf → List ℕ
  header m = if leb 10 (headroom m) then replicate 10 letter_h else []

  abbrev pub room_left : Mbuf → ℕ
  room_left m = if leb 10 (headroom m) then headroom m - 10 else headroom m

  prepend_header_lem :
      (m : Mbuf) → Has (prepend_header api m) (header m ++ content m) (room_left m) (tailroom m)
  unfolding prepend_header
  prepend_header_lem m = elim (Bool-cases (leb 10 (headroom m))) [
    | inl room ↦
        let (m1, junk, e, l, d, h, t) = prepend_room m 10 (ground arith) in
        let (d', h', t') =
          store_data m1 0 (replicate 10 letter_h)
            (omega (arith, ap length d, length-append junk (content m), l)) in
        let stored =
          d'
          ∙ ap (overwrite 0 (replicate 10 letter_h)) d
          ∙ overwrite-front junk (replicate 10 letter_h) (content m) l in
        ground (arith, room, e, stored, h', h, t', t)
    | inr full ↦ ground (arith, full, prepend_full m 10 (ground arith))
  ]

  -- The cuts at both ends.
  cuts_lem :
      (m : Mbuf) (xs : List ℕ) (h t : ℕ)
      → Has m (xs ++ cut) h t
      → 5 ≤ length xs
      → Has (trim (adj m 5) 4) (drop 5 xs) (h + 5) (t + 4)
  cuts_lem m xs h t (b, e, f) le =
      let (d', h', t') = adj_data m 5 (omega (arith, ap length b, length-append xs cut)) in
      let shorter : content (adj m 5) ≡ drop 5 xs ++ cut =
        d' ∙ ap (drop 5) b ∙ drop-append_le 5 xs cut le in
      let (d2, h2, t2) =
        trim_data (adj m 5) 4 (omega (arith, ap length shorter, length-append (drop 5 xs) cut)) in
      (
        d2 ∙ ap (λ r. take (length r - 4) r) shorter ∙ take-front (drop 5 xs) cut,
        h2 ∙ h' ∙ ap (λ n. n + 5) e,
        ground (arith, t2, t', f),
      )

  operations-none : (m : Mbuf) → tailroom m < 10 → operations api m ≡ none
  unfolding operations append_msg
  operations-none m less = ground (arith, append_full m 10 less)

  operations-some :
      (m : Mbuf)
      → 10 ≤ tailroom m
      → (m' : Mbuf) × (operations api m ≡ some m')
        × (content m' ≡ drop 5 (header m ++ content m ++ kept))
        × (headroom m' ≡ room_left m + 5)
        × (tailroom m' ≡ tailroom m - 6)
  unfolding operations
  operations-some m room =
      let (m1, e, (b, h, t)) = append_msg_lem m room in
      let m2 = prepend_header api m1 in
      let (b2, h2, t2) = prepend_header_lem m1 in
      let same : header m1 ≡ header m =
        ap (λ n. if leb 10 n then replicate 10 letter_h else []) h in
      let all : content m2 ≡ header m ++ content m ++ kept ++ cut =
        b2
        ∙ ap (λ r. r ++ content m1) same
        ∙ ap (λ r. header m ++ r) b
        ∙ sym (append_assoc (header m) (content m) msg)
        ∙ sym (append_assoc (header m ++ content m) kept cut) in
      let (b3, h3, t3) =
        cuts_lem m2 (header m ++ content m ++ kept) (room_left m1) (tailroom m1) (all, h2, t2)
          (omega (arith, length-append (header m ++ content m) kept)) in
      (
        trim (adj m2 5) 4,
        ground (arith, e),
        b3,
        h3 ∙ ap (λ n. (if leb 10 n then n - 10 else n) + 5) h,
        omega (arith, t3, t),
      )

  -- What there is to see of an mbuf, and of the program's end.
  abbrev pub look : Option Mbuf → Option (List ℕ × ℕ × ℕ)
  look none = none
  look (some m) = some (content m, headroom m, tailroom m)

  abbrev pub expected : Mbuf → Option (List ℕ × ℕ × ℕ)
  expected m =
      if leb 10 (tailroom m)
      then some (drop 5 (header m ++ content m ++ kept), room_left m + 5, tailroom m - 6)
      else none

  -- `operations` ends the program if there is no room for ten bytes behind the data. Else the packet
  -- gets "DPDK-M" behind its data, and ten letters H before it if there is room for them; then its
  -- first five bytes are gone, and the rooms before and behind it are as the lengths say.
  pub operations_result : (m : Mbuf) → look (operations api m) ≡ expected m
  operations_result m = elim (Bool-cases (leb 10 (tailroom m))) [
    | inl room ↦
        let (m', e, b, h, t) = operations-some m (ground arith) in
        ground (arith, room, ap look e, b, h, t)
    | inr full ↦ ground (arith, full, ap look (operations-none m (ground arith)))
  ]
