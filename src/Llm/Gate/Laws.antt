-- ===== src/Llm/Gate/Laws.antt =====
-- The router's gate and its counter, row by row.
use auto_apply.Common.{
  ℕ, ◌+◌, ◌*◌, ◌≤◌, String, ◌≡◌, ◌≢◌, refl, Bool, true, false, Option, none, some, arith, leb, max,
  if◌then◌else◌, Bool-cases, Option-cases, inl, inr, ◌==◌, not, ◌&&◌, str_eq_refl, ◌-◌,
}
use auto_apply.Llm.Breaker.{
  BreakerState, closed, opened, state_eq, Breaker, Table, fresh, put, is_past, may_claim, claimed,
  counted, tripped, ensure_breaker, claim_trial, increment_failure, trip_circuit,
}
use auto_apply.Llm.Breaker.Laws.{ensure_breaker_self}
use auto_apply.Llm.Breaker.Edges.{cooldown_floor, Follows, Follows-refl, Follows-claim}
use auto_apply.Llm.Breaker.Frame.{Local, Local-refl, Local-update_where, update_where-row}
use auto_apply.Llm.Gate.{
  trip_threshold, cooldown_for_retry_after, gate_row, handle_breakers, counter_of,
  handle_count_failure, handle_rate_limit, observed,
}

-- The state that the router believes a row to be in is the state that it is in.
abbrev pub Held : Bool → Option Breaker → Type 0
Held trial none = trial ≡ false
Held trial (some b) = b.state ≡ observed trial

-- Whether a call may be made now: no row, a closed circuit, or a cooldown that is over.
abbrev pub ready : ℕ → Option Breaker → Bool
ready now none = true
ready now (some b) = if state_eq b.state closed then true else is_past b.cooldown_expires_at now

-- Whether that call is the one trial of a circuit that is not closed.
abbrev pub is_trial : Option Breaker → Bool
is_trial none = false
is_trial (some b) = not (state_eq b.state closed)

-- The row after the gate.
abbrev pub row_after : ℕ → Option Breaker → Option Breaker
row_after now none = none
row_after now (some b) = if may_claim now b then some (claimed now b) else some b

-- The gate lets a request through exactly when the circuit is closed or missing or its cooldown is
-- over, marks it as the trial exactly when the circuit is then not closed, and writes the claim.
pub handle_breakers_lem :
    (t : Table) (u : ℕ) (n : String) (now : ℕ)
    → ((handle_breakers t u n now).0 ≡ (ready now (t u n), ready now (t u n) && is_trial (t u n)))
      × ((handle_breakers t u n now).1 u n ≡ row_after now (t u n))
unfolding handle_breakers claim_trial put
handle_breakers_lem t u n now = ground (arith, str_eq_refl n)

pub handle_breakers-Local :
    (t : Table) (u : ℕ) (n : String) (now : ℕ) → Local u n t (handle_breakers t u n now).1
unfolding handle_breakers
handle_breakers-Local t u n now = elim (Option-cases (t u n)) [
  | inl e ↦ rw (e, handle_breakers) (Local-refl t)
  | inr (b, e) ↦ rw (e, handle_breakers) (gate_row-Local b)
]
  where
    claim-Local : Local u n t (claim_trial t u n now).1
    claim-Local = unfold claim_trial in Local-update_where t u n _ _

    gate_row-Local : (b : Breaker) → Local u n t (gate_row t u n now b).1
    gate_row-Local b = elim (Bool-cases (state_eq b.state closed)) [
      | inl c ↦ rw c (Local-refl t)
      | inr c ↦ ground (arith, claim-Local, Local-refl t)
    ]

pub handle_breakers-Follows :
    {now u : ℕ} (t : Table) (n : String) → Follows now u t (handle_breakers t u n now).1
unfolding handle_breakers
handle_breakers-Follows {now} {u} t n =
    ground (arith, Follows-refl {now = now} {u = u} t, Follows-claim {now = now} {u = u} t n)

-- After the gate lets a request through, the router's idea of the state is right.
pub handle_breakers-Held :
    (t : Table) (u : ℕ) (n : String) (now : ℕ)
    → (handle_breakers t u n now).0.0 ≡ true
    → Held (handle_breakers t u n now).0.1 ((handle_breakers t u n now).1 u n)
handle_breakers-Held t u n now h = ground (arith, handle_breakers_lem t u n now)

-- What one counted failure makes of a row: the counter goes up, and at the threshold it opens.
abbrev pub after_failure : ℕ → Breaker → Breaker
after_failure now b =
    if leb trip_threshold (b.failure_count + 1)
    then tripped 0 (now + cooldown_floor) now (counted now b)
    else counted now b

abbrev pub row_or_fresh : Option Breaker → Breaker
row_or_fresh none = fresh
row_or_fresh (some b) = b

pub Held-row_or_fresh :
    (trial : Bool) (o : Option Breaker) → Held trial o → (row_or_fresh o).state ≡ observed trial
Held-row_or_fresh trial none h = ground arith
Held-row_or_fresh trial (some b) h = h

counter_of-row :
    (t : Table) (u : ℕ) (n : String) (o : Option Breaker)
    → t u n ≡ o
    → ((counter_of t u n o).0 u n ≡ some (row_or_fresh o))
      × ((counter_of t u n o).1 ≡ (row_or_fresh o).failure_count)
counter_of-row t u n none e = ((ensure_breaker_self t u n).0 e, refl)
counter_of-row t u n (some b) e = (e, refl)

ensure_breaker-row :
    (t : Table) (u : ℕ) (n : String) → ensure_breaker t u n u n ≡ some (row_or_fresh (t u n))
ensure_breaker-row t u n = elim (Option-cases (t u n)) [
  | inl e ↦ rw e ((ensure_breaker_self t u n).0 e)
  | inr (b, e) ↦ rw e ((ensure_breaker_self t u n).1 b e)
]

increment_failure-row :
    (t : Table) (u : ℕ) (n : String) (b : Breaker) (now : ℕ)
    → t u n ≡ some b
    → b.state ≢ opened
    → (increment_failure t u n b.failure_count now).1 u n ≡ some (counted now b)
unfolding increment_failure
increment_failure-row t u n b now e h = ground (
  arith,
  update_where-row t u n (λ r. not (state_eq r.state opened) && r.failure_count == b.failure_count)
      (counted now) b e,
)

trip_circuit-row :
    (t : Table) (u : ℕ) (n : String) (b : Breaker) (cooldown now : ℕ) (seen : BreakerState)
    → t u n ≡ some b
    → b.state ≡ seen
    → (trip_circuit t u n 0 cooldown now seen).1 u n ≡ some (tripped 0 cooldown now b)
unfolding trip_circuit
trip_circuit-row t u n b cooldown now seen e h =
    ground (arith, update_where-row t u n (λ r. state_eq r.state seen) (tripped 0 cooldown now) b e)

pub observed-ne-opened : (trial : Bool) → observed trial ≢ opened
observed-ne-opened true = cc
observed-ne-opened false = cc

pub handle_count_failure_lem :
    (t : Table) (u : ℕ) (n : String) (trial : Bool) (now : ℕ)
    → Held trial (t u n)
    → handle_count_failure t u n (observed trial) now u n
      ≡ some (after_failure now (row_or_fresh (t u n)))
unfolding handle_count_failure
handle_count_failure_lem t u n trial now h =
    let known = Held-row_or_fresh trial (t u n) h in
    let (row, count) = counter_of-row t u n (t u n) refl in
    let t' = (counter_of t u n (t u n)).0 in
    let b = row_or_fresh (t u n) in
    let inc = increment_failure-row t' u n b now row (λ e. observed-ne-opened trial (cc)) in
    rw count (
      ground (
        arith,
        inc,
        trip_circuit-row (increment_failure t' u n b.failure_count now).1 u n (counted now b)
            (now + cooldown_floor) now (observed trial) inc known,
      ))

pub handle_rate_limit_lem :
    (jittered : String → ℕ → ℕ) (t : Table) (u : ℕ) (n : String) (after : Option ℕ) (trial : Bool)
    (now : ℕ)
    → Held trial (t u n)
    → handle_rate_limit jittered t u n after (observed trial) now u n
      ≡ some (tripped 0 (cooldown_for_retry_after jittered after n now) now (row_or_fresh (t u n)))
unfolding handle_rate_limit
handle_rate_limit_lem jittered t u n after trial now h =
    trip_circuit-row (ensure_breaker t u n) u n (row_or_fresh (t u n))
      (cooldown_for_retry_after jittered after n now) now (observed trial)
      (ensure_breaker-row t u n) (Held-row_or_fresh trial (t u n) h)

abbrev pub retry_or_zero : Option ℕ → ℕ
retry_or_zero none = 0
retry_or_zero (some x) = x

-- If the jitter adds at most a fifth, then the cooldown after a 429 is at least the floor, and no
-- longer than the larger of the floor and six fifths of the provider's Retry-After.
pub cooldown_bounds :
    (jittered : String → ℕ → ℕ)
    → ((name : String) (x : ℕ) → 5 * jittered name x ≤ 6 * x)
    → (after : Option ℕ) (name : String) (now : ℕ)
    → (now + cooldown_floor ≤ cooldown_for_retry_after jittered after name now)
      × (5 * (cooldown_for_retry_after jittered after name now - now)
          ≤ max (5 * cooldown_floor) (6 * retry_or_zero after))
unfolding cooldown_for_retry_after
cooldown_bounds jittered h none name now = omega arith
cooldown_bounds jittered h (some x) name now = omega (arith, h name x)

pub cooldown_floor-le :
    (jittered : String → ℕ → ℕ) (after : Option ℕ) (name : String) (now : ℕ)
    → now + cooldown_floor ≤ cooldown_for_retry_after jittered after name now
unfolding cooldown_for_retry_after
cooldown_floor-le jittered none name now = omega arith
cooldown_floor-le jittered (some x) name now = omega arith
