-- ===== src/FeatureArc/Tests.antt =====
-- The run of `main` in feature_arc/sample/main.c, and the theorems at concrete inputs.
use dpdk_starter.Base.{◌≡◌, refl, true, false, none, some, List, [], ◌∷◌, ◌++◌, arith}
use dpdk_starter.FeatureArc.{
  Node, Arc, feature_enable, feature_arc_rebuild, dump_pipeline, next_from, set_next,
}
use dpdk_starter.FeatureArc.Table.{has}
use dpdk_starter.FeatureArc.Rebuild.{has_feature, IsReady, enabled_names, dump_pipeline-rebuild}
use dpdk_starter.FeatureArc.Calls.{
  Call, enable, disable, rebuild, calls, names_on, dump_pipeline-calls,
}

abbrev node_table : List Node
node_table =
    record { name = "L3"; next = none }
    ∷ record { name = "Firewall"; next = none }
    ∷ record { name = "NAT"; next = none }
    ∷ record { name = "QoS"; next = none }
    ∷ record { name = "L4"; next = none }
    ∷ []

abbrev l3_arc : Arc
l3_arc = record {
  start = "L3";
  end = "L4";
  features =
      record { name = "Firewall"; enabled = false }
      ∷ record { name = "NAT"; enabled = false }
      ∷ record { name = "QoS"; enabled = true }
      ∷ [];
}

-- Case 4 of `main`: only QoS, then all.
pipelines :
    (dump_pipeline 5 (feature_arc_rebuild node_table l3_arc) l3_arc
      ≡ some ("L3" ∷ "QoS" ∷ "L4" ∷ []))
    × (let a = feature_enable (feature_enable l3_arc "Firewall") "NAT" in
        dump_pipeline 5 (feature_arc_rebuild (feature_arc_rebuild node_table l3_arc) a) a
        ≡ some ("L3" ∷ "Firewall" ∷ "NAT" ∷ "QoS" ∷ "L4" ∷ []))
unfolding dump_pipeline feature_arc_rebuild feature_enable set_next next_from
pipelines = (refl, refl)

ready : IsReady node_table "L3" l3_arc.features "L4"
unfolding has has_feature next_from
ready = record {
  distinct = (refl, (refl, (refl, (refl, (refl, tt)))));
  placed = (refl, refl, (refl, refl, (refl, refl, tt)));
  start_node = refl;
  start_new = refl;
  end_new = refl;
  end_ne = refl;
  end_last = refl;
}

dump_pipeline-rebuild_example :
    dump_pipeline 5 (feature_arc_rebuild node_table l3_arc) l3_arc
    ≡ some ("L3" ∷ (enabled_names l3_arc.features ++ ("L4" ∷ [])))
dump_pipeline-rebuild_example = dump_pipeline-rebuild node_table l3_arc 5 ready (omega arith)

-- Case 3 of `main`, then case 2, then the NAT again.
abbrev some_calls : List Call
some_calls =
    enable "NAT" ∷ enable "Firewall" ∷ rebuild ∷ disable "NAT" ∷ rebuild ∷ enable "NAT" ∷ []

some_names : names_on some_calls l3_arc.features ≡ "Firewall" ∷ "NAT" ∷ "QoS" ∷ []
some_names = refl

dump_pipeline-calls_example :
    let (ns, a) = calls some_calls (node_table, l3_arc) in
    dump_pipeline 5 (feature_arc_rebuild ns a) a
    ≡ some ("L3" ∷ (names_on some_calls l3_arc.features ++ ("L4" ∷ [])))
dump_pipeline-calls_example = dump_pipeline-calls some_calls node_table l3_arc 5 ready (omega arith)
