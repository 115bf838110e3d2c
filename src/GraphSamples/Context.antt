-- ===== src/GraphSamples/Context.antt =====
-- graph_private_context/sample/main.c: the private context of a node says which line the node prints.
use dpdk_starter.Base.{
  ℕ, suc, ◌+◌, ◌%◌, ◌≡◌, Bool, true, false, List, [], ◌∷◌, u8, ltb, ◌==◌, if◌then◌else◌, arith,
}

pub data Line : Type 0 where
  generating processing bypass reached_end : Line

-- `enabled` of `struct feature_ctx`, and the lines printed, the last one first.
pub record State : Type 0 where
  pub enabled : ℕ
  pub lines : List Line

unfoldable pub hello_node_process : State → State
hello_node_process s = record s { lines = generating ∷ s.lines }

unfoldable pub feature_node_process : State → State
feature_node_process s = record s {
  lines = (if ltb 0 s.enabled then processing else bypass) ∷ s.lines;
}

unfoldable pub sink_node_process : State → State
sink_node_process s = record s { lines = reached_end ∷ s.lines }

-- `ctx->enabled = (uint8_t)atoi(argv[1])`, with the pattern of the `int`.
unfoldable pub initialize : ℕ → State
initialize flag = record { enabled = u8 flag; lines = [] }

-- `rte_graph_walk`: whether lib/graph runs the second node, and then the third, on no objects.
unfoldable pub walk : State → Bool × Bool → State
walk s (runs_feature, runs_sink) =
    let s1 = hello_node_process s in
    if runs_feature
    then (let s2 = feature_node_process s1 in if runs_sink then sink_node_process s2 else s2)
    else s1

-- `for (int i = 0; i < 5; i++)`, a walk for each element.
unfoldable pub walk_all : State → List (Bool × Bool) → State
walk_all s [] = s
walk_all s (w ∷ ws) = walk_all (walk s w) ws

abbrev pub is_processing : Line → ℕ
is_processing generating = 0
is_processing processing = 1
is_processing bypass = 0
is_processing reached_end = 0

abbrev pub is_bypass : Line → ℕ
is_bypass generating = 0
is_bypass processing = 0
is_bypass bypass = 1
is_bypass reached_end = 0

abbrev pub total : (Line → ℕ) → List Line → ℕ
total f [] = 0
total f (l ∷ ls) = f l + total f ls

-- In how many walks the second node runs.
abbrev pub runs : List (Bool × Bool) → ℕ
runs [] = 0
runs ((f, k) ∷ ws) = let rest = runs ws in if f then suc rest else rest

walk_all-lines :
    (s : State) (ws : List (Bool × Bool))
    → ((walk_all s ws).enabled ≡ s.enabled)
      × (total is_processing (walk_all s ws).lines
          ≡ total is_processing s.lines + (if ltb 0 s.enabled then runs ws else 0))
      × (total is_bypass (walk_all s ws).lines
          ≡ total is_bypass s.lines + (if ltb 0 s.enabled then 0 else runs ws))
unfolding walk_all walk hello_node_process feature_node_process sink_node_process
walk_all-lines s [] = ground arith
walk_all-lines s ((true, true) ∷ ws) = ground (arith, walk_all-lines (walk s (true, true)) ws)
walk_all-lines s ((true, false) ∷ ws) = ground (arith, walk_all-lines (walk s (true, false)) ws)
walk_all-lines s ((false, k) ∷ ws) = ground (arith, walk_all-lines (walk s (false, k)) ws)

-- However often lib/graph runs the node: it prints `processing` each time and never `bypass` if the
-- lowest byte of the flag is not 0, and the other way round if it is 0, so with the flag 256 too.
pub context_decides :
    (flag : ℕ) (ws : List (Bool × Bool))
    → (total is_processing (walk_all (initialize flag) ws).lines
        ≡ (if flag % 256 == 0 then 0 else runs ws))
      × (total is_bypass (walk_all (initialize flag) ws).lines
          ≡ (if flag % 256 == 0 then runs ws else 0))
unfolding initialize
context_decides flag ws = ground (arith, walk_all-lines (initialize flag) ws)
