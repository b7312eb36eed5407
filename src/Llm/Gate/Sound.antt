-- ===== src/Llm/Gate/Sound.antt =====
-- Well-formed breaker tables, and that every handler of the router keeps them so.
use auto_apply.Common.{
  ℕ, ◌+◌, ◌<◌, String, ◌≡◌, ◌≢◌, refl, Bool, true, Option, none, some, arith, is_some, inl, inr,
  sym, ◌∙◌, Option-cases,
}
use auto_apply.Llm.Breaker.{
  BreakerState, closed, opened, half_open, Breaker, Table, fresh, state_eq, increment_failure,
  trip_circuit, reset_circuit, ensure_breaker,
}
use auto_apply.Llm.Breaker.Edges.{
  cooldown_floor, Follows, Follows-refl, Follows-trans, Follows-ensure, Follows-increment,
  Follows-trip,
}
use auto_apply.Llm.Breaker.Frame.{
  Local, Local-refl, Local-trans, Local-update_where, Local-ensure, update_where-row, key_cases,
}
use auto_apply.Llm.Gate.{
  trip_threshold, cooldown_for_retry_after, handle_breakers, counter_of, handle_count_failure,
  handle_rate_limit, observed,
}
use auto_apply.Llm.Gate.Laws.{
  Held, row_after, after_failure, row_or_fresh, handle_breakers_lem, handle_breakers-Local,
  handle_count_failure_lem, handle_rate_limit_lem, observed-ne-opened, Held-row_or_fresh,
  cooldown_floor-le,
}

-- A closed circuit has failed fewer times than the threshold and has no cooldown; one that is not
-- closed has a cooldown, so that its time to be tried again comes.
abbrev pub SoundFields : BreakerState → ℕ → Option ℕ → Type 0
SoundFields closed count cooldown = (count < trip_threshold) × (cooldown ≡ none)
SoundFields opened count cooldown = is_some cooldown ≡ true
SoundFields half_open count cooldown = is_some cooldown ≡ true

abbrev pub SoundRow : Breaker → Type 0
SoundRow b = SoundFields b.state b.failure_count b.cooldown_expires_at

pub record IsSound (t : Table) : Type 0 where
  pub at : (u : ℕ) (n : String) (b : Breaker) → t u n ≡ some b → SoundRow b

-- A change of one row keeps the table sound if the new row is.
pub Local-IsSound :
    {t t' : Table} (u : ℕ) (n : String)
    → IsSound t
    → Local u n t t'
    → ((b : Breaker) → t' u n ≡ some b → SoundRow b)
    → IsSound t'
Local-IsSound {t} {t'} u n s l row = record {
  at = λ v m b e. elim (key_cases u n v m) [
    | inl (p, q) ↦ row b (ap₂' p q ∙ e)
    | inr other ↦ s.at v m b (sym (l.apart v m other) ∙ e)
  ];
}
  where
    ap₂' : {v : ℕ} {m : String} → u ≡ v → n ≡ m → t' u n ≡ t' v m
    ap₂' p q = cc

row_after-SoundRow :
    (now : ℕ) (o : Option Breaker)
    → ((b : Breaker) → o ≡ some b → SoundRow b)
    → (b : Breaker) → row_after now o ≡ some b
    → SoundRow b
row_after-SoundRow now none h b e = h b e
row_after-SoundRow now (some (c)) h b e = ground (arith, h c refl)

-- The gate keeps the table sound.
pub handle_breakers-IsSound :
    (t : Table) (u : ℕ) (n : String) (now : ℕ) → IsSound t → IsSound (handle_breakers t u n now).1
handle_breakers-IsSound t u n now s =
    Local-IsSound u n s (handle_breakers-Local t u n now)
      λ b e. row_after-SoundRow now (t u n) (s.at u n) b (sym (handle_breakers_lem t u n now).1 ∙ e)

row_or_fresh-SoundRow :
    (o : Option Breaker) → ((b : Breaker) → o ≡ some b → SoundRow b) → SoundRow (row_or_fresh o)
row_or_fresh-SoundRow none h = (omega arith, refl)
row_or_fresh-SoundRow (some b) h = h b refl

after_failure-SoundRow :
    (now : ℕ) (b : Breaker) → SoundRow b → b.state ≢ opened → SoundRow (after_failure now b)
after_failure-SoundRow now b h k = ground arith

pub counter_of-Local :
    (t : Table) (u : ℕ) (n : String) (o : Option Breaker) → Local u n t (counter_of t u n o).0
counter_of-Local t u n none = Local-ensure t u n
counter_of-Local t u n (some b) = Local-refl t

pub trip_circuit-Local :
    (t : Table) (u : ℕ) (n : String) (c a : ℕ) (seen : BreakerState)
    → Local u n t (trip_circuit t u n 0 c a seen).1
unfolding trip_circuit
trip_circuit-Local t u n c a seen = Local-update_where t u n _ _

pub increment_failure-Local :
    (t : Table) (u : ℕ) (n : String) (c a : ℕ) → Local u n t (increment_failure t u n c a).1
unfolding increment_failure
increment_failure-Local t u n c a = Local-update_where t u n _ _

pub handle_count_failure-Local :
    (t : Table) (u : ℕ) (n : String) (seen : BreakerState) (now : ℕ)
    → Local u n t (handle_count_failure t u n seen now)
unfolding handle_count_failure
handle_count_failure-Local t u n seen now =
    let (t', c) = counter_of t u n (t u n) in
    let first =
      Local-trans (counter_of-Local t u n (t u n)) (increment_failure-Local t' u n c now) in
    ground (
      arith,
      first,
      Local-trans first (
          trip_circuit-Local (increment_failure t' u n c now).1 u n (now + cooldown_floor) now
            seen),
    )

pub handle_rate_limit-Local :
    (jittered : String → ℕ → ℕ) (t : Table) (u : ℕ) (n : String) (after : Option ℕ)
    (seen : BreakerState) (now : ℕ)
    → Local u n t (handle_rate_limit jittered t u n after seen now)
unfolding handle_rate_limit
handle_rate_limit-Local jittered t u n after seen now =
    Local-trans (Local-ensure t u n) (trip_circuit-Local (ensure_breaker t u n) u n _ now seen)

state-ne-opened :
    (trial : Bool) (o : Option Breaker) → Held trial o → (row_or_fresh o).state ≢ opened
state-ne-opened trial o h e = observed-ne-opened trial (sym (Held-row_or_fresh trial o h) ∙ e)

-- Counting a failure keeps the table sound, if the router knows the state of the row.
pub handle_count_failure-IsSound :
    (t : Table) (u : ℕ) (n : String) (trial : Bool) (now : ℕ)
    → Held trial (t u n)
    → IsSound t
    → IsSound (handle_count_failure t u n (observed trial) now)
handle_count_failure-IsSound t u n trial now h s =
    Local-IsSound u n s (handle_count_failure-Local t u n (observed trial) now) λ b e.
      let kept =
        after_failure-SoundRow now (row_or_fresh (t u n)) (row_or_fresh-SoundRow (t u n) (s.at u n))
          (state-ne-opened trial (t u n) h) in
      ground (arith, kept, handle_count_failure_lem t u n trial now h)

-- So does a 429, whatever its Retry-After.
pub handle_rate_limit-IsSound :
    (jittered : String → ℕ → ℕ) (t : Table) (u : ℕ) (n : String) (after : Option ℕ) (trial : Bool)
    (now : ℕ)
    → Held trial (t u n)
    → IsSound t
    → IsSound (handle_rate_limit jittered t u n after (observed trial) now)
handle_rate_limit-IsSound jittered t u n after trial now h s =
    Local-IsSound u n s (handle_rate_limit-Local jittered t u n after (observed trial) now)
      λ b e. ground (arith, handle_rate_limit_lem jittered t u n after trial now h)

pub reset_circuit-Local :
    (t : Table) (u : ℕ) (n : String) (seen : BreakerState)
    → Local u n t (reset_circuit t u n seen).1
unfolding reset_circuit
reset_circuit-Local t u n seen = Local-update_where t u n _ _

pub reset_circuit-row :
    (t : Table) (u : ℕ) (n : String)
    → Held true (t u n)
    → (reset_circuit t u n half_open).1 u n ≡ some fresh
unfolding reset_circuit
reset_circuit-row t u n h = elim (Option-cases (t u n)) [
  | inl e ↦ absurd (cc (rw e at h))
  | inr (b, e) ↦
      let held : b.state ≡ half_open = rw e at h in
      ground
        (arith, held, update_where-row t u n (λ r. state_eq r.state half_open) (λ r. fresh) b e)
]

-- The reset after a successful trial.
pub reset_circuit-IsSound :
    (t : Table) (u : ℕ) (n : String)
    → Held true (t u n)
    → IsSound t
    → IsSound (reset_circuit t u n half_open).1
reset_circuit-IsSound t u n h s =
    Local-IsSound u n s (reset_circuit-Local t u n half_open)
      λ b e. ground (arith, reset_circuit-row t u n h)

-- Every handler moves the breakers only along the edges of the state machine.
counter_of-Follows :
    {now : ℕ} (t : Table) (u : ℕ) (n : String) (o : Option Breaker)
    → Follows now u t (counter_of t u n o).0
counter_of-Follows t u n none = Follows-ensure t n
counter_of-Follows t u n (some b) = Follows-refl t

pub handle_count_failure-Follows :
    (t : Table) (u : ℕ) (n : String) (trial : Bool) (now : ℕ)
    → Follows now u t (handle_count_failure t u n (observed trial) now)
unfolding handle_count_failure
handle_count_failure-Follows t u n trial now =
    let (t', c) = counter_of t u n (t u n) in
    let first =
      Follows-trans (counter_of-Follows {now = now} t u n (t u n)) (Follows-increment t' n c) in
    ground (
      arith,
      first,
      Follows-trans first (
          Follows-trip (increment_failure t' u n c now).1 n (now + cooldown_floor) (observed trial)
            (observed-ne-opened trial) (omega arith)),
    )

pub handle_rate_limit-Follows :
    (jittered : String → ℕ → ℕ) (t : Table) (u : ℕ) (n : String) (after : Option ℕ) (trial : Bool)
    (now : ℕ)
    → Follows now u t (handle_rate_limit jittered t u n after (observed trial) now)
unfolding handle_rate_limit
handle_rate_limit-Follows jittered t u n after trial now = Follows-trans (Follows-ensure t n) (
    Follows-trip (ensure_breaker t u n) n (cooldown_for_retry_after jittered after n now)
      (observed trial) (observed-ne-opened trial) (cooldown_floor-le jittered after n now))
