-- ===== src/Telemetry/Command.antt =====
-- telementry/sample/main.c: the handler of "/harsh_stats".
use dpdk_starter.Base.{ℕ, ◌≡◌, refl, Bool, true, false, Option, none, some, List, [], ◌∷◌}

-- An entry of the dictionary; `"app"` has always the same text.
pub data Entry : Type 0 where
  app_minimal_telemetry : Entry
  lcore_count main_lcore : ℕ → Entry

-- `d` is NULL, or has entries already, which `rte_tel_data_start_dict` removes; the result is whether 0 is
-- returned, and `d` behind the call.
unfoldable pub app_stats_handler : Option (List Entry) → ℕ → ℕ → Bool × Option (List Entry)
app_stats_handler none lcores main = (false, none)
app_stats_handler (some old) lcores main =
    (true, some (app_minimal_telemetry ∷ lcore_count lcores ∷ main_lcore main ∷ []))

-- What the handler reports does not depend on what was there before.
pub app_stats_handler-old :
    (old other : List Entry) (lcores main : ℕ)
    → app_stats_handler (some old) lcores main ≡ app_stats_handler (some other) lcores main
unfolding app_stats_handler
app_stats_handler-old old other lcores main = refl
