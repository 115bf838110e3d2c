-- ===== src/FeatureArc/Rebuild.antt =====
-- `feature_arc_rebuild` and the pipeline that `dump_pipeline` then prints.
use text.Mathlib.TextEquality.{eq_iff}
use Prim.Native.String.{String}
use dpdk_starter.Base.{
  ℕ, zero, suc, ◌+◌, ◌≤◌, ◌≡◌, Bool, true, false, ◌||◌, none, some, List, [], ◌∷◌, ◌++◌, length,
  if◌then◌else◌, Bool-cases, inl, inr, arith,
}
use dpdk_starter.FeatureArc.{
  Node, Feature, Arc, same, set_next, rebuild_from, feature_arc_rebuild, next_from, dump_from,
  dump_pipeline,
}
use dpdk_starter.FeatureArc.Table.{
  has, Distinct, has-set_next, Distinct-set_next, next_from-set_next,
}

-- The names that are enabled, in the order of their registration.
unfoldable pub enabled_names : List Feature → List String
enabled_names [] = []
enabled_names (f ∷ fs) = if f.enabled then f.name ∷ enabled_names fs else enabled_names fs

-- Some feature has the name.
unfoldable pub has_feature : String → List Feature → Bool
has_feature x [] = false
has_feature x (f ∷ fs) = same f.name x || has_feature x fs

-- Each feature has a node, and no two features have one name.
abbrev pub AllPlaced : List Feature → List Node → Type 0
AllPlaced [] ns = Unit {0}
AllPlaced (f ∷ fs) ns = (has f.name ns ≡ true) × (has_feature f.name fs ≡ false) × AllPlaced fs ns

AllPlaced-set_next :
    (fs : List Feature) (ns : List Node) (from to : String)
    → AllPlaced fs ns
    → AllPlaced fs (set_next ns from to)
AllPlaced-set_next [] ns from to h = tt
AllPlaced-set_next (f ∷ fs) ns from to h =
    ground (arith, has-set_next f.name from to ns, AllPlaced-set_next fs ns from to h.2)

-- What the loop needs of the table, of `prev` and of the features that it has still to visit.
pub record IsReady (ns : List Node) (prev : String) (fs : List Feature) (end : String)
    : Type 0 where
  pub distinct : Distinct ns
  pub placed : AllPlaced fs ns
  pub start_node : has prev ns ≡ true
  pub start_new : has_feature prev fs ≡ false
  pub end_new : has_feature end fs ≡ false
  pub end_ne : same prev end ≡ false
  pub end_last : next_from none ns end ≡ none

module _ {ns : List Node} {prev : String} {f : Feature} {fs : List Feature} {end : String} where
  IsReady-on : IsReady ns prev (f ∷ fs) end → IsReady (set_next ns prev f.name) f.name fs end
  unfolding has_feature
  IsReady-on r = record {
    distinct = Distinct-set_next prev f.name ns r.distinct;
    placed = AllPlaced-set_next fs ns prev f.name r.placed.2;
    start_node = ground (arith, has-set_next f.name prev f.name ns, r.placed.0);
    start_new = r.placed.1;
    end_new = ground (arith, r.end_new);
    end_ne = ground (arith, r.end_new);
    end_last = ground (
      arith,
      r.end_ne,
      r.end_last,
      next_from-set_next none ns prev f.name end r.distinct r.start_node,
    );
  }

  IsReady-off : IsReady ns prev (f ∷ fs) end → IsReady ns prev fs end
  unfolding has_feature
  IsReady-off r = record {
    distinct = r.distinct;
    placed = r.placed.2;
    start_node = r.start_node;
    start_new = ground (arith, r.start_new);
    end_new = ground (arith, r.end_new);
    end_ne = r.end_ne;
    end_last = r.end_last;
  }

-- The loop changes the successor of `prev` and of the features that it visits, and of nothing else.
pub rebuild_from-other :
    (ns : List Node) (prev : String) (fs : List Feature) (end x : String)
    → IsReady ns prev fs end
    → same prev x ≡ false
    → has_feature x fs ≡ false
    → next_from none (rebuild_from ns prev fs end) x ≡ next_from none ns x
unfolding rebuild_from has_feature
rebuild_from-other ns prev [] end x r h k =
    ground (arith, next_from-set_next none ns prev end x r.distinct r.start_node)
rebuild_from-other ns prev (f ∷ fs) end x r h k = ground (
  arith,
  next_from-set_next none ns prev f.name x r.distinct r.start_node,
  rebuild_from-other (set_next ns prev f.name) f.name fs end x (IsReady-on r),
  rebuild_from-other ns prev fs end x (IsReady-off r),
)

-- In a table whose lookup at `cur` is `next`, the pipeline is `cur` and the pipeline from `next`.
dump_from-step :
    (fuel : ℕ) (ns : List Node) (cur next : String) (rest : List String)
    → next_from none ns cur ≡ some next
    → dump_from fuel ns next ≡ some rest
    → dump_from (suc fuel) ns cur ≡ some (cur ∷ rest)
unfolding dump_from
dump_from-step fuel ns cur next rest h k = ground arith

dump_from-end :
    (fuel : ℕ) (ns : List Node) (cur end : String)
    → next_from none ns cur ≡ some end
    → next_from none ns end ≡ none
    → dump_from (suc (suc fuel)) ns cur ≡ some (cur ∷ end ∷ [])
unfolding dump_from
dump_from-end fuel ns cur end h k = ground arith

-- After the loop, the successor of `prev` is the first feature if that is enabled.
next_on :
    {ns : List Node} {prev : String} {f : Feature} {fs : List Feature} {end : String}
    → IsReady ns prev (f ∷ fs) end
    → next_from none (rebuild_from (set_next ns prev f.name) f.name fs end) prev ≡ some f.name
unfolding has_feature
next_on {ns} {prev} {f} {fs} {end} r = ground (
  arith,
  r.start_new,
  eq_iff prev prev,
  next_from-set_next none ns prev f.name prev r.distinct r.start_node,
  rebuild_from-other (set_next ns prev f.name) f.name fs end prev (IsReady-on r),
)

-- The pipeline from `prev` after the loop.
dump_from-rebuild_from :
    (fuel : ℕ) (ns : List Node) (prev : String) (fs : List Feature) (end : String)
    → IsReady ns prev fs end
    → length fs + 2 ≤ fuel
    → dump_from fuel (rebuild_from ns prev fs end) prev
      ≡ some (prev ∷ (enabled_names fs ++ (end ∷ [])))
unfolding rebuild_from enabled_names
dump_from-rebuild_from zero ns prev fs end r h = absurd (omega arith)
dump_from-rebuild_from (suc zero) ns prev fs end r h = absurd (omega arith)
dump_from-rebuild_from (suc (suc fuel)) ns prev [] end r h =
    dump_from-end fuel (set_next ns prev end) prev end
      (ground
        (arith, eq_iff prev prev, next_from-set_next none ns prev end prev r.distinct r.start_node))
      (ground (
        arith,
        r.end_ne,
        r.end_last,
        next_from-set_next none ns prev end end r.distinct r.start_node,
      ))
dump_from-rebuild_from (suc (suc fuel)) ns prev (f ∷ fs) end r h = elim (Bool-cases f.enabled) [
  | inl on ↦ rw on (
      dump_from-step (suc fuel) (rebuild_from (set_next ns prev f.name) f.name fs end) prev f.name
        (f.name ∷ (enabled_names fs ++ (end ∷ []))) (next_on r)
        (dump_from-rebuild_from (suc fuel) (set_next ns prev f.name) f.name fs end (IsReady-on r)
          (omega arith)))
  | inr off ↦
      rw off (dump_from-rebuild_from (suc (suc fuel)) ns prev fs end (IsReady-off r) (omega arith))
]

-- After `feature_arc_rebuild`, whatever was linked before, `dump_pipeline` stops, and prints the
-- arc's start, the enabled features in the order of their registration, and its end; if each of
-- these names has one node, the features' names and the start and the end are different, and the
-- end has no successor. Fuel of the number of features and 2 is enough.
pub dump_pipeline-rebuild :
    (ns : List Node) (a : Arc) (fuel : ℕ)
    → IsReady ns a.start a.features a.end
    → length a.features + 2 ≤ fuel
    → dump_pipeline fuel (feature_arc_rebuild ns a) a
      ≡ some (a.start ∷ (enabled_names a.features ++ (a.end ∷ [])))
unfolding dump_pipeline feature_arc_rebuild
dump_pipeline-rebuild ns a fuel r h = dump_from-rebuild_from fuel ns a.start a.features a.end r h
