-- ===== src/Llm/Breaker/Frame.antt =====
-- Which rows an operation leaves alone: `Local u n t t'` when only the row (u, n) may differ.
use auto_apply.Common.{
  ℕ, String, ◌≡◌, refl, Bool, false, some, arith, ◌∙◌, if◌then◌else◌, Bool-cases, Option-cases, ◌⊎◌,
  inl, inr, eq_iff,
}
use auto_apply.Llm.Breaker.{Breaker, Table, fresh, same_key, put, update_where, ensure_breaker}
use auto_apply.Llm.Breaker.Laws.{put_self, update_where-miss, update_where-hit}

pub record Local (u : ℕ) (n : String) (t t' : Table) : Type 0 where
  pub apart : (v : ℕ) (m : String) → same_key u n v m ≡ false → t' v m ≡ t v m

pub Local-refl : {u : ℕ} {n : String} (t : Table) → Local u n t t
Local-refl t = record { apart = λ v m h. refl }

pub Local-trans :
    {u : ℕ} {n : String} {t t' t'' : Table} → Local u n t t' → Local u n t' t'' → Local u n t t''
Local-trans f g = record { apart = λ v m h. g.apart v m h ∙ f.apart v m h }

pub Local-put : (t : Table) (u : ℕ) (n : String) (b : Breaker) → Local u n t (put t u n b)
unfolding put
Local-put t u n b = record { apart = λ v m h. ground arith }

pub Local-update_where :
    (t : Table) (u : ℕ) (n : String) (guard : Breaker → Bool) (change : Breaker → Breaker)
    → Local u n t (update_where t u n guard change).1
Local-update_where t u n guard change = elim (Bool-cases (update_where t u n guard change).0) [
  | inl hit ↦
      let (b, row, can, same) = update_where-hit t u n guard change hit in
      rw same (Local-put t u n (change b))
  | inr miss ↦ rw (update_where-miss t u n guard change miss) (Local-refl t)
]

pub Local-ensure : (t : Table) (u : ℕ) (n : String) → Local u n t (ensure_breaker t u n)
unfolding ensure_breaker
Local-ensure t u n = elim (Option-cases (t u n)) [
  | inl e ↦ rw (e, ensure_breaker) (Local-put t u n fresh)
  | inr (b, e) ↦ rw (e, ensure_breaker) (Local-refl t)
]

-- The row itself, after an UPDATE whose guard holds or fails.
pub update_where-row :
    (t : Table) (u : ℕ) (n : String) (guard : Breaker → Bool) (change : Breaker → Breaker)
    (b : Breaker)
    → t u n ≡ some b
    → (update_where t u n guard change).1 u n ≡ some (if guard b then change b else b)
unfolding update_where
update_where-row t u n guard change b e = elim (Bool-cases (guard b)) [
  | inl yes_ ↦ rw (e, update_where) (rw yes_ (put_self t u n (change b)))
  | inr no_ ↦ rw (e, update_where) (rw no_ e)
]

-- A key is the one that was written, or the two differ.
pub key_cases :
    (u : ℕ) (n : String) (v : ℕ) (m : String) → ((u ≡ v) × (n ≡ m)) ⊎ (same_key u n v m ≡ false)
key_cases u n v m = ground (arith, eq_iff n m)
