-- ===== src/Llm/Gate.antt =====
-- What the router does with a breaker before and after a call (backend/app/llm/router.py:
-- `cooldown_for_retry_after`, `_handle_breakers`, `_handle_count_failure` and the branch for 429).
-- The jitter comes from Python's `random.Random(name).uniform(0.8, 1.2)`: `jittered name x` is the
-- product with `x`, in microseconds.
pub mod Laws
pub mod Sound
mod Tests
use auto_apply.Common.{
  ℕ, ◌+◌, ◌*◌, ◌≤◌, String, Bool, true, false, Option, none, some, ltb, leb, max, if◌then◌else◌,
}
use auto_apply.Llm.Breaker.{
  BreakerState, closed, opened, half_open, state_eq, Breaker, Table, get_breaker, ensure_breaker,
  claim_trial, increment_failure, trip_circuit,
}
use auto_apply.Llm.Breaker.Edges.{cooldown_floor}

abbrev pub trip_threshold : ℕ
trip_threshold = 3

unfoldable pub cooldown_for_retry_after : (String → ℕ → ℕ) → Option ℕ → String → ℕ → ℕ
cooldown_for_retry_after jittered none provider_name now = now + cooldown_floor
cooldown_for_retry_after jittered (some retry_after) provider_name now =
    now + max cooldown_floor (jittered provider_name retry_after)

-- `cooldown is not None and cooldown > now`
abbrev pub still_cooling : Option ℕ → ℕ → Bool
still_cooling none now = false
still_cooling (some c) now = ltb now c

-- `claimed = await repo.claim_trial(…); return claimed, claimed`
abbrev pub by_claim : Bool × Table → (Bool × Bool) × Table
by_claim (claimed, t) = ((claimed, claimed), t)

abbrev pub gate_row : Table → ℕ → String → ℕ → Breaker → (Bool × Bool) × Table
gate_row t user_id name now b =
    if state_eq b.state closed
    then ((true, false), t)
    else if state_eq b.state opened
    then (if still_cooling b.cooldown_expires_at now
        then ((false, false), t)
        else by_claim (claim_trial t user_id name now))
    else by_claim (claim_trial t user_id name now)

-- (proceed, trial_claimed); a missing row is a closed breaker
unfoldable pub handle_breakers : Table → ℕ → String → ℕ → (Bool × Bool) × Table
unfolding get_breaker
handle_breakers t user_id name now = elim (get_breaker t user_id name) [
  | none ↦ ((true, false), t)
  | some b ↦ gate_row t user_id name now b
]

-- the table and the counter that `_handle_count_failure` goes on with
abbrev pub counter_of : Table → ℕ → String → Option Breaker → Table × ℕ
counter_of t user_id name none = (ensure_breaker t user_id name, 0)
counter_of t user_id name (some b) = (t, b.failure_count)

unfoldable pub handle_count_failure : Table → ℕ → String → BreakerState → ℕ → Table
unfolding get_breaker
handle_count_failure t user_id name observed_state now =
    let (t', current) = counter_of t user_id name (get_breaker t user_id name) in
    let t'' = (increment_failure t' user_id name current now).1 in
    if leb trip_threshold (current + 1)
    then (trip_circuit t'' user_id name 0 (now + cooldown_floor) now observed_state).1
    else t''

-- `ensure_breaker` and `trip_circuit` on a 429
unfoldable pub handle_rate_limit :
    (String → ℕ → ℕ) → Table → ℕ → String → Option ℕ → BreakerState → ℕ → Table
handle_rate_limit jittered t user_id name retry_after observed_state now =
    (trip_circuit (ensure_breaker t user_id name) user_id name 0
      (cooldown_for_retry_after jittered retry_after name now) now observed_state).1

-- `"HALF_OPEN" if trial else "CLOSED"`
abbrev pub observed : Bool → BreakerState
observed trial = if trial then half_open else closed
