-- ===== src/Llm/Gate/Tests.antt =====
-- Runs of the gate and of the failure counter on sample rows.
use auto_apply.Common.{◌≤◌, ◌+◌, ◌-◌, ◌*◌, ◌≡◌, arith, true, some}
use auto_apply.Llm.Breaker.{claimed}
use auto_apply.Llm.Breaker.Edges.{cooldown_floor}
use auto_apply.Llm.Gate.{handle_breakers, cooldown_for_retry_after}
use auto_apply.Llm.Gate.Laws.{handle_breakers_lem, cooldown_bounds}
use auto_apply.Llm.Fixtures.{opened_table, opened_row, no_jitter}

handle_breakers_example :
    ((handle_breakers opened_table 7 "groq" 100).0 ≡ (true, true))
    × ((handle_breakers opened_table 7 "groq" 100).1 7 "groq" ≡ some (claimed 100 opened_row))
handle_breakers_example = handle_breakers_lem opened_table 7 "groq" 100

cooldown_bounds_example :
    (50 + cooldown_floor ≤ cooldown_for_retry_after no_jitter (some 40_000_000) "groq" 50)
    × (5 * (cooldown_for_retry_after no_jitter (some 40_000_000) "groq" 50 - 50) ≤ 240_000_000)
cooldown_bounds_example =
    cooldown_bounds no_jitter (λ name x. omega arith) (some 40_000_000) "groq" 50
