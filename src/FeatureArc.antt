-- ===== src/FeatureArc.antt =====
-- feature_arc/sample/main.c: a table of nodes, and an arc of features that can be enabled; the
-- pipeline goes from the arc's start through the enabled features to its end.
pub mod Table
pub mod Rebuild
pub mod Flags
pub mod Calls
pub mod Main
pub mod Tests
use text.Mathlib.Text.{◌==◌}
use Prim.Native.String.{String}
use dpdk_starter.Base.{
  ℕ, zero, suc, Bool, true, false, Option, none, some, List, [], ◌∷◌, ◌++◌, length, ltb,
  if◌then◌else◌,
}

-- `strcmp(a, b) == 0`
abbrev pub same : String → String → Bool
same a b = a == b

-- `struct node`; NULL is `none`.
pub record Node : Type 0 where
  pub name : String
  pub next : Option String

-- The entries of `features` and `enabled` at one index.
pub record Feature : Type 0 where
  pub name : String
  pub enabled : Bool

-- `struct feature_arc`, with `count` entries.
pub record Arc : Type 0 where
  pub start : String
  pub end : String
  pub features : List Feature

abbrev pub max_features : ℕ
max_features = 8

abbrev pub max_nodes : ℕ
max_nodes = 16

-- `nodes[0..node_count)`. The source writes with no test of the bound: `none` is that write behind
-- the end of the array.
unfoldable pub add_node : List Node → String → Option (List Node)
add_node ns x =
    if ltb (length ns) max_nodes then some (ns ++ (record { name = x; next = none } ∷ [])) else none

unfoldable pub set_next : List Node → String → String → List Node
set_next [] from to = []
set_next (n ∷ ns) from to =
    if same n.name from then record n { next = some to } ∷ ns else n ∷ set_next ns from to

unfoldable pub feature_arc_init : String → String → Arc
feature_arc_init start end = record { start = start; end = end; features = [] }

unfoldable pub feature_register : Arc → String → Option Arc
feature_register a x =
    if ltb (length a.features) max_features
    then some (record a { features = a.features ++ (record { name = x; enabled = false } ∷ []) })
    else none

-- The loop of `feature_enable` (`on` is 1) and of `feature_disable` (`on` is 0).
unfoldable pub set_enabled : List Feature → String → Bool → List Feature
set_enabled [] x on = []
set_enabled (f ∷ fs) x on =
    (if same f.name x then record f { enabled = on } else f) ∷ set_enabled fs x on

unfoldable pub feature_enable : Arc → String → Arc
unfolding set_enabled
feature_enable a x = record a { features = set_enabled a.features x true }

unfoldable pub feature_disable : Arc → String → Arc
unfolding set_enabled
feature_disable a x = record a { features = set_enabled a.features x false }

-- The loop of `feature_arc_rebuild` and the `set_next` behind it.
unfoldable pub rebuild_from : List Node → String → List Feature → String → List Node
rebuild_from ns prev [] end = set_next ns prev end
rebuild_from ns prev (f ∷ fs) end =
    let on = rebuild_from (set_next ns prev f.name) f.name fs end in
    let off = rebuild_from ns prev fs end in if f.enabled then on else off

unfoldable pub feature_arc_rebuild : List Node → Arc → List Node
unfolding rebuild_from
feature_arc_rebuild ns a = rebuild_from ns a.start a.features a.end

-- The inner loop of `dump_pipeline`: it runs to the end, so the last node of the name counts.
unfoldable pub next_from : Option String → List Node → String → Option String
next_from acc [] cur = acc
next_from acc (n ∷ ns) cur = next_from (if same n.name cur then n.next else acc) ns cur

-- The names that `dump_pipeline` prints from `cur` on; `none` if the fuel runs out.
unfoldable pub dump_from : ℕ → List Node → String → Option (List String)
dump_from zero ns cur = none
dump_from (suc fuel) ns cur = elim (next_from none ns cur) [
  | none ↦ some (cur ∷ [])
  | some next ↦ elim (dump_from fuel ns next) [ none ↦ none | some rest ↦ some (cur ∷ rest) ]
]

unfoldable pub dump_pipeline : ℕ → List Node → Arc → Option (List String)
unfolding dump_from
dump_pipeline fuel ns a = dump_from fuel ns a.start
