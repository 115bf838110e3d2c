-- ===== src/FeatureArc/Main.antt =====
-- `main` of feature_arc/sample/main.c: the table, the arc, and the five pipelines that are printed.
use Prim.Native.String.{String}
use dpdk_starter.Base.{ℕ, ◌≡◌, refl, Option, none, some, List, [], ◌∷◌}
use dpdk_starter.FeatureArc.{
  Node, Arc, add_node, feature_arc_init, feature_register, feature_enable, feature_disable,
  feature_arc_rebuild, dump_pipeline, next_from, set_next,
}

infixl 5 ◌>>=◌
abbrev ◌>>=◌ : {A B : Type 0} → Option A → (A → Option B) → Option B
none >>= f = none
some a >>= f = f a

abbrev pub main_nodes : Option (List Node)
main_nodes = do
  one ← add_node [] "L3"
  two ← add_node one "Firewall"
  three ← add_node two "NAT"
  four ← add_node three "QoS"
  add_node four "L4"

abbrev pub main_arc : Option Arc
main_arc = do
  one ← feature_register (feature_arc_init "L3" "L4") "Firewall"
  two ← feature_register one "NAT"
  feature_register two "QoS"

-- `feature_arc_rebuild` and `dump_pipeline`, with what follows on the table.
abbrev pub print_case :
    ℕ → List Node → Arc → (List Node → Option (List (List String))) → Option (List (List String))
print_case fuel ns a rest = do
  let ns' = feature_arc_rebuild ns a
  line ← dump_pipeline fuel ns' a
  lines ← rest ns'
  some (line ∷ lines)

abbrev pub print_cases : ℕ → List Node → Arc → Option (List (List String))
print_cases fuel ns none_on =
    let firewall = feature_enable none_on "Firewall" in
    let both = feature_enable firewall "NAT" in
    let qos = feature_enable (feature_disable (feature_disable both "Firewall") "NAT") "QoS" in
    let all = feature_enable (feature_enable qos "Firewall") "NAT" in
    print_case fuel ns none_on (λ ns₁. print_case fuel ns₁ firewall (λ ns₂.
      print_case fuel ns₂ both
        (λ ns₃. print_case fuel ns₃ qos (λ ns₄. print_case fuel ns₄ all (λ ns₅. some [])))))

abbrev pub main_lines : ℕ → Option (List (List String))
main_lines fuel = do ns ← main_nodes; a ← main_arc; print_cases fuel ns a

main_printed :
    main_lines 5
    ≡ some (
        ("L3" ∷ "L4" ∷ [])
        ∷ ("L3" ∷ "Firewall" ∷ "L4" ∷ [])
        ∷ ("L3" ∷ "Firewall" ∷ "NAT" ∷ "L4" ∷ [])
        ∷ ("L3" ∷ "QoS" ∷ "L4" ∷ [])
        ∷ ("L3" ∷ "Firewall" ∷ "NAT" ∷ "QoS" ∷ "L4" ∷ [])
        ∷ [])
unfolding add_node feature_arc_init feature_register feature_enable feature_disable
    feature_arc_rebuild dump_pipeline next_from set_next
main_printed = refl
