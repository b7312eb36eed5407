-- ===== src/Llm/Breaker/Laws.antt =====
-- What a guarded UPDATE does to its own row and to every other row.
use auto_apply.Common.{ℕ, ◌+◌, ◌<◌, String, ◌≡◌, Bool, true, false, none, some, arith, str_eq_refl}
use auto_apply.Llm.Breaker.{
  Breaker, Table, fresh, same_key, put, update_where, ensure_breaker, claim_trial, trial_window,
  may_claim, claimed,
}

same_key_refl : (u : ℕ) (n : String) → same_key u n u n ≡ true
same_key_refl u n = ground (arith, str_eq_refl n)

-- The row that was written.
pub put_self : (t : Table) (u : ℕ) (n : String) (b : Breaker) → put t u n b u n ≡ some b
unfolding put
put_self t u n b = ground (arith, same_key_refl u n)

-- `INSERT … ON CONFLICT DO NOTHING` leaves a row in place, and adds one only where there is none.
pub ensure_breaker_self :
    (t : Table) (u : ℕ) (n : String)
    → (t u n ≡ none → ensure_breaker t u n u n ≡ some fresh)
      × ((b : Breaker) → t u n ≡ some b → ensure_breaker t u n u n ≡ some b)
unfolding ensure_breaker
ensure_breaker_self t u n =
    (λ e. rw (e, ensure_breaker) (put_self t u n fresh), λ b e. rw (e, ensure_breaker) e)

module _ (t : Table) (u : ℕ) (n : String) (guard : Breaker → Bool)
    (change : Breaker → Breaker) where
  -- An UPDATE whose guard fails, or that finds no row, changes nothing.
  pub update_where-miss :
      (update_where t u n guard change).0 ≡ false → (update_where t u n guard change).1 ≡ t
  unfolding update_where
  update_where-miss h = ground arith

  pub update_where-hit :
      (update_where t u n guard change).0 ≡ true
      → (b : Breaker) × (t u n ≡ some b)
        × (guard b ≡ true)
        × ((update_where t u n guard change).1 ≡ put t u n (change b))
  unfolding update_where
  update_where-hit h = ground arith

-- A claimed trial excludes every other until its window of sixty seconds has passed: a second
-- claim of the same breaker is refused and changes nothing.
pub claim_trial_exclusive :
    (t : Table) (u : ℕ) (n : String) (now later : ℕ)
    → (claim_trial t u n now).0 ≡ true
    → later < now + trial_window
    → claim_trial (claim_trial t u n now).1 u n later ≡ (false, (claim_trial t u n now).1)
unfolding claim_trial
claim_trial_exclusive t u n now later h lt =
    let (b, row, can, same) = update_where-hit t u n (may_claim now) (claimed now) h in
    rw same (rw (put_self t u n (claimed now b), update_where) (ground arith))
