-- ===== src/NicStats/Xstats.antt =====
-- What `print_xstats` prints on every answer of the driver.
use dpdk_starter.Base.{
  ltb, leb, ◌<◌, get_elem?, if◌then◌else◌, not, ◌&&◌, ◌||◌, ◌==◌, ◌⊎◌, ℕ, zero, suc, ◌≤◌, ◌≡◌, refl,
  sym, ap, ◌∙◌, ◌↔◌, Bool, true, false, Option, none, some, List, [], ◌∷◌, ◌++◌, map, length,
  length-append, length-take, replicate, take, arith,
}
use dpdk_starter.NicStats.{
  Line, xstats_header, xstat, no_count, no_names, no_xstats, Driver, filled, print_entries,
  print_xstats,
}

-- The line shows an element that is not valid.
abbrev pub is_stale : Line → Bool
is_stale (xstat (some n) (some v)) = false
is_stale (xstat (some n) none) = true
is_stale (xstat none v) = true
is_stale l = false

abbrev pub any_stale : List Line → Bool
any_stale [] = false
any_stale (l ∷ ls) = is_stale l || any_stale ls

-- What element `i` of an array of `n` elements is behind a call with these entries.
abbrev pub entry_at : ℕ → List ℕ → ℕ → Option ℕ
entry_at n entries i = if leb (length entries) n then get_elem? entries i else none

-- The header, and for each of the `len` statistics a line with its name and its value, in this order.
pub record IsListing (ls : List Line) (len : ℕ) (ns vs : List ℕ) : Type 0 where
  pub first : get_elem? ls 0 ≡ some xstats_header
  pub size : length ls ≡ suc len
  pub lines :
      (i : ℕ)
      → i < len
      → get_elem? ls (suc i) ≡ some (xstat (entry_at len ns i) (entry_at len vs i))

abbrev has_none : List (Option ℕ) → Bool
has_none [] = false
has_none (none ∷ xs) = true
has_none (some x ∷ xs) = has_none xs

has_none-take :
    (n k : ℕ) (es : List ℕ)
    → n ≤ k
    → has_none (take n (map (λ e. some e) es ++ replicate k none)) ≡ ltb (length es) n
has_none-take zero k es h = ground arith
has_none-take (suc n) zero [] h = absurd (omega arith)
has_none-take (suc n) (suc k) [] h = ground arith
has_none-take (suc n) k (e ∷ es) h = ground (arith, has_none-take n k es)

has_none-replicate : (n : ℕ) → has_none (replicate n none) ≡ ltb 0 n
has_none-replicate zero = refl
has_none-replicate (suc n) = ground arith

has_none-filled : (n : ℕ) (es : List ℕ) → has_none (filled n es) ≡ (ltb 0 n && not (length es == n))
has_none-filled n es = ground (arith, has_none-take n n es, has_none-replicate n)

length-replicate : (n : ℕ) → length (replicate {A = Option ℕ} n none) ≡ n
length-replicate zero = refl
length-replicate (suc n) = ap suc (length-replicate n)

length-filled : (n : ℕ) (es : List ℕ) → length (filled n es) ≡ n
length-filled n es = ground (
  arith,
  length-take n (map (λ e. some e) es ++ replicate n none),
  length-append (map (λ e. some e) es) (replicate n none),
  length-replicate n,
)

print_entries-stale :
    (ns vs : List (Option ℕ))
    → length ns ≡ length vs
    → (any_stale (print_entries ns vs) ≡ (has_none ns || has_none vs))
      × (length (print_entries ns vs) ≡ length ns)
print_entries-stale [] [] h = (refl, refl)
print_entries-stale [] (v ∷ vs) h = absurd (omega arith)
print_entries-stale (n ∷ ns) [] h = absurd (omega arith)
print_entries-stale (none ∷ ns) (v ∷ vs) h = ground (arith, print_entries-stale ns vs)
print_entries-stale (some n ∷ ns) (none ∷ vs) h = ground (arith, print_entries-stale ns vs)
print_entries-stale (some n ∷ ns) (some v ∷ vs) h = ground (arith, print_entries-stale ns vs)

get_elem?-replicate : (n i : ℕ) → i < n → get_elem? (replicate {A = Option ℕ} n none) i ≡ some none
get_elem?-replicate zero i h = absurd (omega arith)
get_elem?-replicate (suc n) zero h = refl
get_elem?-replicate (suc n) (suc i) h = get_elem?-replicate n i (omega arith)

get_elem?-padded :
    (n k : ℕ) (es : List ℕ) (i : ℕ)
    → i < n
    → n ≤ k
    → get_elem? (take n (map (λ e. some e) es ++ replicate k none)) i ≡ some (get_elem? es i)
get_elem?-padded zero k es i h le = absurd (omega arith)
get_elem?-padded (suc n) zero es i h le = absurd (omega arith)
get_elem?-padded (suc n) (suc k) [] zero h le = refl
get_elem?-padded (suc n) (suc k) [] (suc i) h le =
    get_elem?-padded n k [] i (omega arith) (omega arith)
get_elem?-padded (suc n) (suc k) (e ∷ es) zero h le = refl
get_elem?-padded (suc n) (suc k) (e ∷ es) (suc i) h le =
    get_elem?-padded n (suc k) es i (omega arith) (omega arith)

get_elem?-filled :
    (n : ℕ) (es : List ℕ) (i : ℕ) → i < n → get_elem? (filled n es) i ≡ some (entry_at n es i)
get_elem?-filled n es i h =
    ground (arith, get_elem?-padded n n es i h (omega arith), get_elem?-replicate n i h)

get_elem?-print_entries :
    (ns vs : List (Option ℕ)) (i : ℕ) (n v : Option ℕ)
    → get_elem? ns i ≡ some n
    → get_elem? vs i ≡ some v
    → get_elem? (print_entries ns vs) i ≡ some (xstat n v)
get_elem?-print_entries [] vs i n v h k = absurd (ground (arith, h))
get_elem?-print_entries (n' ∷ ns) [] i n v h k = absurd (ground (arith, k))
get_elem?-print_entries (n' ∷ ns) (v' ∷ vs) zero n v h k = ground (arith, h, k)
get_elem?-print_entries (n' ∷ ns) (v' ∷ vs) (suc i) n v h k =
    get_elem?-print_entries ns vs i n v h k

print_some :
    (d : Driver) (len : ℕ) (ns vs : List ℕ)
    → d.xstats_count ≡ some len
    → d.names ≡ some ns
    → d.xstats ≡ some vs
    → print_xstats d ≡ xstats_header ∷ print_entries (filled len ns) (filled len vs)
unfolding print_xstats
print_some d len ns vs c n v = rw (c, n, v)

stale_iff :
    (len a b : ℕ)
    → (((ltb 0 len && not (a == len)) || (ltb 0 len && not (b == len))) ≡ false)
      ↔ (len ≡ 0) ⊎ ((a ≡ len) × (b ≡ len))
stale_iff len a b = (λ h. ground arith, λ h. ground arith)

print_xstats-entries :
    (d : Driver) (len : ℕ) (ns vs : List ℕ)
    → d.xstats_count ≡ some len
    → d.names ≡ some ns
    → d.xstats ≡ some vs
    → IsListing (print_xstats d) len ns vs
      × (any_stale (print_xstats d) ≡ false ↔ (len ≡ 0) ⊎ ((length ns ≡ len) × (length vs ≡ len)))
print_xstats-entries d len ns vs c n v =
    let same = length-filled len ns in
    let (stale, size) =
      print_entries-stale (filled len ns) (filled len vs) (same ∙ sym (length-filled len vs)) in
    rw (print_some d len ns vs c n v) (
      record {
        first = refl;
        size = ap suc (size ∙ same);
        lines = λ i h.
            get_elem?-print_entries (filled len ns) (filled len vs) i (entry_at len ns i)
              (entry_at len vs i) (get_elem?-filled len ns i h) (get_elem?-filled len vs i h);
      },
      rw (stale, has_none-filled len ns, has_none-filled len vs)
          (stale_iff len (length ns) (length vs)),
    )

-- `print_xstats` prints one line, its own for each of the three calls, if that call is the first to fail.
-- If none fails, it prints the header and then, for each of the statistics that the first call counted
-- and in their order, the element of the array of names and that of the array of values, each the
-- driver's entry of that index, if there is one and the array had room for all; and every element that
-- is printed is valid exactly if the first call counted none, or both other calls had as many entries
-- as it counted.
pub print_xstats_lem :
    (d : Driver)
    → (d.xstats_count ≡ none → print_xstats d ≡ no_count ∷ [])
      × ((len : ℕ) → d.xstats_count ≡ some len → d.names ≡ none → print_xstats d ≡ no_names ∷ [])
      × ((len : ℕ) (ns : List ℕ)
          → d.xstats_count ≡ some len
          → d.names ≡ some ns
          → d.xstats ≡ none
          → print_xstats d ≡ no_xstats ∷ [])
      × ((len : ℕ) (ns vs : List ℕ)
          → d.xstats_count ≡ some len
          → d.names ≡ some ns
          → d.xstats ≡ some vs
          → IsListing (print_xstats d) len ns vs
            × (any_stale (print_xstats d) ≡ false
                ↔ (len ≡ 0) ⊎ ((length ns ≡ len) × (length vs ≡ len))))
unfolding print_xstats
print_xstats_lem d = (
  λ c. rw c,
  λ len c n. ground (arith, c, n),
  λ len ns c n v. ground (arith, c, n, v),
  λ len ns vs c n v. print_xstats-entries d len ns vs c n v,
)
