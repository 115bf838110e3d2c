-- ===== src/Lcores.antt =====
-- lcore/*: programs that launch a function on lcores. The counter of lcore_var_example.c is a variable of
-- which each lcore has its own; a step is its increment or its print by one lcore, in any order.
pub mod Counter
mod Tests
use dpdk_starter.Base.{ℕ, ◌+◌, ◌≡◌, List, [], ◌∷◌, ◌++◌, ◌==◌, if◌then◌else◌}
use dpdk_starter.Ipc.Memory.{mul_int}

-- Where an lcore stands in `lcore_main` of lcore_var_example.c, if the function is launched on it.
pub data Place : Type 0 where
  not_launched started counted printed : Place

-- `my_counter` of each lcore, and the lines `Core %u: counter = %d`.
pub record State : Type 0 where
  pub place : ℕ → Place
  pub my_counter : ℕ → ℕ
  pub lines : List (ℕ × ℕ)

abbrev pub set_at : {A : Type 0} → (ℕ → A) → ℕ → A → ℕ → A
set_at f id v j = if j == id then v else f j

-- `RTE_PER_LCORE(my_counter)++`
unfoldable pub increment : State → ℕ → State
increment s id = record s {
  place = set_at s.place id counted;
  my_counter = set_at s.my_counter id (s.my_counter id + 1);
}

unfoldable pub print_counter : State → ℕ → State
print_counter s id = record s {
  place = set_at s.place id printed;
  lines = s.lines ++ ((id, s.my_counter id) ∷ []);
}

pub data Step (s : State) : State → Type 0 where
  increments : (id : ℕ) → s.place id ≡ started → Step s (increment s id)
  prints : (id : ℕ) → s.place id ≡ counted → Step s (print_counter s id)

-- `rte_eal_mp_remote_launch(lcore_main, NULL, CALL_MAIN)`: every lcore that the EAL runs.
abbrev pub launch : (ℕ → Place) → State
launch place = record { place = place; my_counter = λ id. 0; lines = [] }

-- lcore/lcore_wit.c: what `lcore_main` returns, and the loop of `main` over the workers, with the line of
-- each.
abbrev pub lcore_main : ℕ → ℕ
lcore_main id = mul_int id 10

unfoldable pub wait_workers : List ℕ → List (ℕ × ℕ)
wait_workers [] = []
wait_workers (id ∷ ids) = (id, lcore_main id) ∷ wait_workers ids

-- lcore/exp_lcore/main.c: a line of `func1` or `func2` with the lcore that runs it; `func1` calls `func2`
-- on its own lcore.
pub data Line : Type 0 where
  inside_func1 inside_func2 : ℕ → Line

abbrev pub func2 : ℕ → List Line
func2 id = inside_func2 id ∷ []

abbrev pub func1 : ℕ → List Line
func1 id = inside_func1 id ∷ func2 id
