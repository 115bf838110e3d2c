-- ===== src/PacketChange/Simple.antt =====
-- mempool_membuff/simple.c: a text is appended to a fresh mbuf and read back.
use dpdk_starter.Base.{
  ℕ, ◌≤◌, ◌≡◌, refl, ap, ◌∙◌, Option, none, some, List, [], ◌∷◌, ◌++◌, length, leb, ◌==◌,
  if◌then◌else◌, Bool-cases, inl, inr, arith,
}
use dpdk_starter.PacketChange.{MbufApi, overwrite}
use dpdk_starter.PacketChange.Result.{overwrite-end}

-- "Hello from DPDK mbuf!" with its NUL.
abbrev pub hello : List ℕ
hello =
    72 ∷ 101 ∷ 108 ∷ 108 ∷ 111 ∷ 32 ∷ 102 ∷ 114 ∷ 111 ∷ 109 ∷ 32 ∷ 68 ∷ 80 ∷ 68 ∷ 75 ∷ 32 ∷ 109 ∷ 98
    ∷ 117 ∷ 102 ∷ 33 ∷ 0 ∷ []

-- What `%s` prints: the bytes before the first NUL.
abbrev pub c_string : List ℕ → List ℕ
c_string [] = []
c_string (c ∷ cs) = let rest = c_string cs in if c == 0 then [] else c ∷ rest

module _ (api : MbufApi) where
  open api use {Mbuf, content, tailroom, append, store, append_full, append_room, store_data}

  -- The append with its `memcpy`, and the text that is read at the start of the data; `none` where the
  -- program ends at the append.
  unfoldable pub write_and_read : Mbuf → Option (List ℕ)
  write_and_read m = elim (append m (length hello)) [
    | none ↦ none
    | some m' ↦ some (c_string (content (store m' (length (content m)) hello)))
  ]

  written :
      (m : Mbuf)
      → content m ≡ []
      → length hello ≤ tailroom m
      → write_and_read m ≡ some (c_string hello)
  unfolding write_and_read
  written m e fits =
      let (m', junk, ok, size, after, head, tail) = append_room m (length hello) fits in
      let plain : content m' ≡ junk = after ∙ ap (λ c. c ++ junk) e in
      let (stored, head', tail') =
        store_data m' (length (content m)) hello
          (omega (arith, ap length e, ap length plain, size)) in
      let text : content (store m' (length (content m)) hello) ≡ hello =
        stored
        ∙ ap (λ c. overwrite (length c) hello (content m')) e
        ∙ ap (overwrite 0 hello) plain
        ∙ overwrite-end [] junk hello size in
      rw (ok, write_and_read) (ap (λ c. some (c_string c)) text)

  -- On an mbuf without data: the text is read back as it was written if there is room for it with its NUL,
  -- and the program ends at the append if not.
  pub write_and_read_lem :
      (m : Mbuf)
      → content m ≡ []
      → write_and_read m ≡ (if leb (length hello) (tailroom m) then some (c_string hello) else none)
  unfolding write_and_read
  write_and_read_lem m e = elim (Bool-cases (leb (length hello) (tailroom m))) [
    | inl fits ↦ rw fits (written m e (ground arith))
    | inr full ↦ rw full (rw (append_full m (length hello) (ground arith), write_and_read) refl)
  ]
