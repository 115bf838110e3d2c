-- ===== src/GraphPipeline/Tests.antt =====
-- One walk of the graph over an IPv4 packet (1), an IPv6 packet (2) and an ARP packet (3).
use dpdk_starter.Base.{
  ℕ, ◌+◌, ◌≤◌, ◌≡◌, refl, List, [], ◌∷◌, ◌++◌, count, replicate, ◌==◌, if◌then◌else◌, arith,
}
use dpdk_starter.Packet.{Mbuf, packet_of}
use dpdk_starter.GraphPipeline.{
  State, empty, rx_node_process, split_one, split_all, l2_node_process, ipv4_node_process,
  ipv6_node_process, tx_node_process, drop_node_process, IsQuiet, Run, run_l2, run_ipv4, run_ipv6,
  run_tx, run_drop, Reach, start, receive, run,
}
use dpdk_starter.GraphPipeline.Conservation.{held, Reach-held, Reach-quiet}
use dpdk_starter.GraphPipeline.Sorting.{IsSorted, Reach-IsSorted}
use dpdk_starter.GraphPipeline.Progress.{Runs, done, next, walk_ends}

abbrev typed : ℕ → ℕ → Mbuf
typed hi lo = packet_of (replicate 12 0 ++ (hi ∷ lo ∷ []))

abbrev memory : ℕ → Mbuf
memory a = if a == 1 then typed 8 0 else if a == 2 then typed 0x86 0xdd else typed 8 6

abbrev got : List ℕ
got = 1 ∷ 2 ∷ 3 ∷ []

abbrev s₁ : State
s₁ = record empty { l2 = got }

abbrev s₂ : State
s₂ = record empty { ipv4 = 1 ∷ []; ipv6 = 2 ∷ []; dropped = 3 ∷ [] }

abbrev s₅ : State
s₅ = record empty { tx = 1 ∷ 2 ∷ []; freed = 3 ∷ [] }

abbrev s₆ : State
s₆ = record empty { sent = 1 ∷ []; freed = 3 ∷ 2 ∷ [] }

reach₁ : Reach memory got s₁
unfolding rx_node_process
reach₁ = receive got start (refl, refl, refl, refl, refl) (omega arith)

to_s₂ : Run memory s₁ s₂
unfolding l2_node_process split_all split_one
to_s₂ = run_l2 (λ e. cc)

to_s₅ : Runs memory s₂ 3 s₅
unfolding ipv4_node_process ipv6_node_process drop_node_process
to_s₅ = next (next (next done (run_ipv4 (λ e. cc))) (run_ipv6 (λ e. cc))) (run_drop (λ e. cc))

to_s₆ : Run memory s₅ s₆
unfolding tx_node_process
to_s₆ = run_tx 1 (omega arith) (λ e. cc)

reach₂ : Reach memory got s₂
reach₂ = run reach₁ to_s₂

reach₆ : Reach memory got s₆
unfolding ipv4_node_process ipv6_node_process drop_node_process tx_node_process
reach₆ =
    run (run (run (run reach₂ (run_ipv4 (λ e. cc))) (run_ipv6 (λ e. cc))) (run_drop (λ e. cc)))
      (run_tx 1 (omega arith) (λ e. cc))

Reach-held_example : held 2 s₂ ≡ count 2 got
Reach-held_example = Reach-held reach₂ 2

Reach-quiet_example : count 2 s₆.sent + count 2 s₆.freed ≡ count 2 got
Reach-quiet_example = Reach-quiet reach₆ (refl, refl, refl, refl, refl) 2

Reach-IsSorted_example : IsSorted memory s₂
Reach-IsSorted_example = Reach-IsSorted memory reach₂

walk_ends_example : (1 ≤ 96) × (¬ ((u : State) × Run memory s₂ u) → IsQuiet s₂)
unfolding rx_node_process
walk_ends_example =
    walk_ends empty got (refl, refl, refl, refl, refl) (omega arith) (next done to_s₂)
