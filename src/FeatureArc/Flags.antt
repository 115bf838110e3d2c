-- ===== src/FeatureArc/Flags.antt =====
-- `feature_enable`, `feature_disable` and `feature_arc_rebuild` one after another.
use text.Mathlib.TextEquality.{eq_iff}
use Prim.Native.String.{String}
use dpdk_starter.Base.{
  ◌≡◌, refl, Bool, true, false, ◌||◌, ◌&&◌, List, [], ◌∷◌, if◌then◌else◌, arith,
}
use dpdk_starter.FeatureArc.{
  Node, Feature, Arc, same, set_next, set_enabled, feature_enable, feature_disable, rebuild_from,
  feature_arc_rebuild,
}
use dpdk_starter.FeatureArc.Table.{has, Distinct, has-set_next, Distinct-set_next}
use dpdk_starter.FeatureArc.Rebuild.{has_feature, AllPlaced, IsReady, rebuild_from-other}

-- Some feature has the name and is enabled.
unfoldable pub is_enabled : String → List Feature → Bool
is_enabled x [] = false
is_enabled x (f ∷ fs) = (same f.name x && f.enabled) || is_enabled x fs

set_enabled-is_enabled :
    (x y : String) (on : Bool) (fs : List Feature)
    → is_enabled y (set_enabled fs x on)
      ≡ (if same x y then on && has_feature x fs else is_enabled y fs)
unfolding is_enabled set_enabled has_feature
set_enabled-is_enabled x y on [] = ground arith
set_enabled-is_enabled x y on (f ∷ fs) =
    ground (arith, eq_iff f.name x, eq_iff f.name y, eq_iff x y, set_enabled-is_enabled x y on fs)

-- Enabling a feature makes it enabled if it is registered, disabling makes it disabled, and neither
-- changes the state of another feature.
pub is_enabled-enable-disable :
    (a : Arc) (x y : String)
    → (is_enabled y (feature_enable a x).features
        ≡ (if same x y then has_feature x a.features else is_enabled y a.features))
      × (is_enabled y (feature_disable a x).features
          ≡ (if same x y then false else is_enabled y a.features))
unfolding feature_enable feature_disable
is_enabled-enable-disable a x y = (
  ground (arith, set_enabled-is_enabled x y true a.features),
  ground (arith, set_enabled-is_enabled x y false a.features),
)

has_feature-set_enabled :
    (x y : String) (on : Bool) (fs : List Feature)
    → has_feature y (set_enabled fs x on) ≡ has_feature y fs
unfolding set_enabled has_feature
has_feature-set_enabled x y on [] = refl
has_feature-set_enabled x y on (f ∷ fs) = ground (arith, has_feature-set_enabled x y on fs)

AllPlaced-set_enabled :
    (x : String) (on : Bool) (fs : List Feature) (ns : List Node)
    → AllPlaced fs ns
    → AllPlaced (set_enabled fs x on) ns
unfolding set_enabled
AllPlaced-set_enabled x on [] ns h = tt
AllPlaced-set_enabled x on (f ∷ fs) ns h =
    ground (arith, has_feature-set_enabled x f.name on fs, AllPlaced-set_enabled x on fs ns h.2)

set_enabled-IsReady :
    (ns : List Node) (prev : String) (fs : List Feature) (end x : String) (on : Bool)
    → IsReady ns prev fs end
    → IsReady ns prev (set_enabled fs x on) end
set_enabled-IsReady ns prev fs end x on r = record {
  distinct = r.distinct;
  placed = AllPlaced-set_enabled x on fs ns r.placed;
  start_node = r.start_node;
  start_new = ground (arith, r.start_new, has_feature-set_enabled x prev on fs);
  end_new = ground (arith, r.end_new, has_feature-set_enabled x end on fs);
  end_ne = r.end_ne;
  end_last = r.end_last;
}

has-rebuild_from :
    (ns : List Node) (prev : String) (fs : List Feature) (end x : String)
    → has x (rebuild_from ns prev fs end) ≡ has x ns
unfolding rebuild_from
has-rebuild_from ns prev [] end x = has-set_next x prev end ns
has-rebuild_from ns prev (f ∷ fs) end x = ground (
  arith,
  has-set_next x prev f.name ns,
  has-rebuild_from (set_next ns prev f.name) f.name fs end x,
  has-rebuild_from ns prev fs end x,
)

Distinct-rebuild_from :
    (ns : List Node) (prev : String) (fs : List Feature) (end : String)
    → Distinct ns
    → Distinct (rebuild_from ns prev fs end)
unfolding rebuild_from
Distinct-rebuild_from ns prev [] end d = Distinct-set_next prev end ns d
Distinct-rebuild_from ns prev (f ∷ fs) end d = ground (
  arith,
  Distinct-set_next prev f.name ns d,
  Distinct-rebuild_from (set_next ns prev f.name) f.name fs end,
  Distinct-rebuild_from ns prev fs end d,
)

AllPlaced-rebuild_from :
    (gs : List Feature) (ns : List Node) (prev : String) (fs : List Feature) (end : String)
    → AllPlaced gs ns
    → AllPlaced gs (rebuild_from ns prev fs end)
AllPlaced-rebuild_from [] ns prev fs end h = tt
AllPlaced-rebuild_from (g ∷ gs) ns prev fs end h =
    ground
      (arith, has-rebuild_from ns prev fs end g.name, AllPlaced-rebuild_from gs ns prev fs end h.2)

-- A table and an arc that are fit for a rebuild stay so under `feature_arc_rebuild`, and under
-- `feature_enable` and `feature_disable` of any name: the calls can be made in any order.
pub IsReady-kept :
    (ns : List Node) (a : Arc) (x : String)
    → IsReady ns a.start a.features a.end
    → IsReady (feature_arc_rebuild ns a) a.start a.features a.end
      × IsReady ns a.start (feature_enable a x).features a.end
      × IsReady ns a.start (feature_disable a x).features a.end
unfolding feature_arc_rebuild feature_enable feature_disable
IsReady-kept ns a x r = (
  record {
    distinct = Distinct-rebuild_from ns a.start a.features a.end r.distinct;
    placed = AllPlaced-rebuild_from a.features ns a.start a.features a.end r.placed;
    start_node = ground (arith, r.start_node, has-rebuild_from ns a.start a.features a.end a.start);
    start_new = r.start_new;
    end_new = r.end_new;
    end_ne = r.end_ne;
    end_last = ground (
      arith,
      r.end_last,
      rebuild_from-other ns a.start a.features a.end a.end r r.end_ne r.end_new,
    );
  },
  set_enabled-IsReady ns a.start a.features a.end x true r,
  set_enabled-IsReady ns a.start a.features a.end x false r,
)
