-- ===== src/FeatureArc/Table.antt =====
-- `set_next` and the lookup of `dump_pipeline` on a table with one node for each name.
use text.Mathlib.TextEquality.{eq_iff}
use Prim.Native.String.{String}
use dpdk_starter.Base.{
  ◌≡◌, refl, Bool, true, false, ◌||◌, Option, some, List, [], ◌∷◌, if◌then◌else◌, arith,
}
use dpdk_starter.FeatureArc.{Node, same, set_next, next_from}

-- Some node has the name.
unfoldable pub has : String → List Node → Bool
has x [] = false
has x (n ∷ ns) = same n.name x || has x ns

-- No two nodes have one name.
abbrev pub Distinct : List Node → Type 0
Distinct [] = Unit {0}
Distinct (n ∷ ns) = (has n.name ns ≡ false) × Distinct ns

pub has-set_next : (x from to : String) (ns : List Node) → has x (set_next ns from to) ≡ has x ns
unfolding has set_next
has-set_next x from to [] = refl
has-set_next x from to (n ∷ ns) = ground (arith, has-set_next x from to ns)

pub Distinct-set_next :
    (from to : String) (ns : List Node) → Distinct ns → Distinct (set_next ns from to)
unfolding set_next
Distinct-set_next from to [] d = tt
Distinct-set_next from to (n ∷ ns) d =
    ground (arith, Distinct-set_next from to ns d.1, has-set_next n.name from to ns)

next_from_absent :
    (acc : Option String) (ns : List Node) (x : String)
    → has x ns ≡ false
    → next_from acc ns x ≡ acc
unfolding has next_from
next_from_absent acc [] x h = refl
next_from_absent acc (n ∷ ns) x h = ground (arith, next_from_absent acc ns x)

-- The lookup after `set_next`, at every name.
pub next_from-set_next :
    (acc : Option String) (ns : List Node) (from to x : String)
    → Distinct ns
    → has from ns ≡ true
    → next_from acc (set_next ns from to) x ≡ (if same from x then some to else next_from acc ns x)
unfolding has next_from set_next
next_from-set_next acc [] from to x d h = ground arith
next_from-set_next acc (n ∷ ns) from to x d h = ground (
  arith,
  eq_iff n.name from,
  eq_iff from x,
  eq_iff n.name x,
  next_from_absent (some to) ns x,
  next_from-set_next acc ns from to x d.1,
  next_from-set_next n.next ns from to x d.1,
)
