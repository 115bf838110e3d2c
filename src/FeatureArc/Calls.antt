-- ===== src/FeatureArc/Calls.antt =====
-- Any sequence of the calls of `main`, and the pipeline that is printed behind it.
use Prim.Native.String.{String}
use dpdk_starter.Base.{
  ℕ, ◌+◌, ◌≤◌, ◌≡◌, refl, sym, ap, ◌∙◌, Bool, true, false, some, List, [], ◌∷◌, ◌++◌, length,
  if◌then◌else◌, arith,
}
use dpdk_starter.FeatureArc.{
  Node, Feature, Arc, same, set_enabled, feature_enable, feature_disable, feature_arc_rebuild,
  dump_pipeline,
}
use dpdk_starter.FeatureArc.Rebuild.{IsReady, enabled_names, dump_pipeline-rebuild}
use dpdk_starter.FeatureArc.Flags.{IsReady-kept}

pub data Call : Type 0 where
  enable disable : String → Call
  rebuild : Call

abbrev pub call : Call → List Node × Arc → List Node × Arc
call (enable x) (ns, a) = (ns, feature_enable a x)
call (disable x) (ns, a) = (ns, feature_disable a x)
call rebuild (ns, a) = (feature_arc_rebuild ns a, a)

unfoldable pub calls : List Call → List Node × Arc → List Node × Arc
calls [] s = s
calls (c ∷ cs) s = calls cs (call c s)

-- Whether the last call that names the feature enables it, where `on` is what it was before.
abbrev pub last_call : List Call → String → Bool → Bool
last_call [] x on = on
last_call (enable y ∷ cs) x on = last_call cs x (if same x y then true else on)
last_call (disable y ∷ cs) x on = last_call cs x (if same x y then false else on)
last_call (rebuild ∷ cs) x on = last_call cs x on

-- The names whose last call enables them, in the order of the features.
abbrev pub names_on : List Call → List Feature → List String
names_on cs [] = []
names_on cs (f ∷ fs) =
    if last_call cs f.name f.enabled then f.name ∷ names_on cs fs else names_on cs fs

names_on-none : (fs : List Feature) → names_on [] fs ≡ enabled_names fs
unfolding enabled_names
names_on-none [] = refl
names_on-none (f ∷ fs) = ground (arith, names_on-none fs)

names_on-enable :
    (cs : List Call) (x : String) (fs : List Feature)
    → names_on cs (set_enabled fs x true) ≡ names_on (enable x ∷ cs) fs
unfolding set_enabled
names_on-enable cs x [] = refl
names_on-enable cs x (f ∷ fs) = ground (arith, names_on-enable cs x fs)

names_on-disable :
    (cs : List Call) (x : String) (fs : List Feature)
    → names_on cs (set_enabled fs x false) ≡ names_on (disable x ∷ cs) fs
unfolding set_enabled
names_on-disable cs x [] = refl
names_on-disable cs x (f ∷ fs) = ground (arith, names_on-disable cs x fs)

length-set_enabled :
    (fs : List Feature) (x : String) (on : Bool) → length (set_enabled fs x on) ≡ length fs
unfolding set_enabled
length-set_enabled [] x on = refl
length-set_enabled (f ∷ fs) x on = omega (arith, length-set_enabled fs x on)

-- After any sequence of enables, disables and rebuilds, in any order, a rebuild makes the pipeline that
-- is printed: the arc's start, the features for which the last call of `feature_enable` or
-- `feature_disable` enables them (or that were enabled before and are not named by one), in the order of
-- their registration, and the arc's end; where each name has one node, the names are different and the
-- end has no successor, and with fuel of the number of features and 2.
pub dump_pipeline-calls :
    (cs : List Call) (ns : List Node) (a : Arc) (fuel : ℕ)
    → IsReady ns a.start a.features a.end
    → length a.features + 2 ≤ fuel
    → let (ns', a') = calls cs (ns, a) in
      dump_pipeline fuel (feature_arc_rebuild ns' a') a'
      ≡ some (a.start ∷ (names_on cs a.features ++ (a.end ∷ [])))
unfolding calls feature_enable feature_disable
dump_pipeline-calls [] ns a fuel r le =
    dump_pipeline-rebuild ns a fuel r le
    ∙ ap (λ l. some (a.start ∷ (l ++ (a.end ∷ [])))) (sym (names_on-none a.features))
dump_pipeline-calls (enable x ∷ cs) ns a fuel r le =
    dump_pipeline-calls cs ns (feature_enable a x) fuel (IsReady-kept ns a x r).1
      (omega (arith, length-set_enabled a.features x true))
    ∙ ap (λ l. some (a.start ∷ (l ++ (a.end ∷ [])))) (names_on-enable cs x a.features)
dump_pipeline-calls (disable x ∷ cs) ns a fuel r le =
    dump_pipeline-calls cs ns (feature_disable a x) fuel (IsReady-kept ns a x r).2
      (omega (arith, length-set_enabled a.features x false))
    ∙ ap (λ l. some (a.start ∷ (l ++ (a.end ∷ [])))) (names_on-disable cs x a.features)
dump_pipeline-calls (rebuild ∷ cs) ns a fuel r le =
    dump_pipeline-calls cs (feature_arc_rebuild ns a) a fuel (IsReady-kept ns a a.start r).0 le
