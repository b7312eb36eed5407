-- ===== src/Llm/Breaker.antt =====
-- The `rate_limit_state` table and its guarded UPDATEs
-- (backend/app/db/repositories/llm_router_repository.py, db/migrations/016). The pair
-- (user_id, provider_name) is UNIQUE, so the table is a partial map; times are microseconds, and
-- each UPDATE returns `rowcount == 1` beside the table. `updated_at` is never read and left out.
pub mod Edges
pub mod Frame
pub mod Laws
mod Tests
use auto_apply.Common.{
  ℕ, ◌+◌, String, Bool, true, false, ◌&&◌, ◌||◌, Option, none, some, leb, ◌==◌, str_eq,
  if◌then◌else◌, not,
}

pub data BreakerState : Type 0 where
  closed opened half_open : BreakerState

abbrev pub state_eq : BreakerState → BreakerState → Bool
state_eq closed closed = true
state_eq opened opened = true
state_eq half_open half_open = true
state_eq _ _ = false

pub record Breaker : Type 0 where
  pub state : BreakerState
  pub failure_count : ℕ
  pub last_failure_at : Option ℕ
  pub cooldown_expires_at : Option ℕ

abbrev pub Table : Type 0
Table = ℕ → String → Option Breaker

-- the column defaults of the migration
abbrev pub fresh : Breaker
fresh = record {
  state = closed;
  failure_count = 0;
  last_failure_at = none;
  cooldown_expires_at = none;
}

abbrev pub trial_window : ℕ
trial_window = 60_000_000

abbrev pub same_key : ℕ → String → ℕ → String → Bool
same_key u n u' n' = u == u' && str_eq n n'

unfoldable pub put : Table → ℕ → String → Breaker → Table
put t u n b u' n' = if same_key u n u' n' then some b else t u' n'

-- `UPDATE … WHERE provider_name = … AND user_id = … AND guard`
unfoldable pub update_where :
    Table → ℕ → String → (Breaker → Bool) → (Breaker → Breaker) → Bool × Table
update_where t u n guard change = elim (t u n) [
  | none ↦ (false, t)
  | some b ↦ if guard b then (true, put t u n (change b)) else (false, t)
]

unfoldable pub get_breaker : Table → ℕ → String → Option Breaker
get_breaker t user_id provider_name = t user_id provider_name

-- `INSERT … ON CONFLICT DO NOTHING`
unfoldable pub ensure_breaker : Table → ℕ → String → Table
ensure_breaker t user_id provider_name = elim (t user_id provider_name) [
  | none ↦ put t user_id provider_name fresh
  | some b ↦ t
]

-- `cooldown_expires_at IS NULL OR cooldown_expires_at <= now`
abbrev pub is_past : Option ℕ → ℕ → Bool
is_past none now = true
is_past (some c) now = leb c now

abbrev pub may_claim : ℕ → Breaker → Bool
may_claim now b = not (state_eq b.state closed) && is_past b.cooldown_expires_at now

abbrev pub claimed : ℕ → Breaker → Breaker
claimed now b = record b { state = half_open; cooldown_expires_at = some (now + trial_window) }

unfoldable pub claim_trial : Table → ℕ → String → ℕ → Bool × Table
unfolding update_where
claim_trial t user_id provider_name now =
    update_where t user_id provider_name (may_claim now) (claimed now)

abbrev pub counted : ℕ → Breaker → Breaker
counted at b = record b { failure_count = b.failure_count + 1; last_failure_at = some at }

unfoldable pub increment_failure : Table → ℕ → String → ℕ → ℕ → Bool × Table
unfolding update_where
increment_failure t user_id provider_name current_failure_count last_failure_at =
    update_where t user_id provider_name
      (λ b. not (state_eq b.state opened) && b.failure_count == current_failure_count)
      (counted last_failure_at)

abbrev pub tripped : ℕ → ℕ → ℕ → Breaker → Breaker
tripped delta cooldown at b = record {
  state = opened;
  failure_count = b.failure_count + delta;
  last_failure_at = some at;
  cooldown_expires_at = some cooldown;
}

unfoldable pub trip_circuit : Table → ℕ → String → ℕ → ℕ → ℕ → BreakerState → Bool × Table
unfolding update_where
trip_circuit t user_id provider_name failure_count_delta cooldown_expires_at last_failure_at
      observed_state =
    update_where t user_id provider_name (λ b. state_eq b.state observed_state)
      (tripped failure_count_delta cooldown_expires_at last_failure_at)

unfoldable pub reset_circuit : Table → ℕ → String → BreakerState → Bool × Table
unfolding update_where
reset_circuit t user_id provider_name observed_state =
    update_where t user_id provider_name (λ b. state_eq b.state observed_state) (λ b. fresh)
