-- ===== src/Llm/Breaker/Edges.antt =====
-- The circuit breaker as a state machine: the moves that one row can make at a time `now`, and
-- tables that differ by such moves of one user's rows.
use auto_apply.Common.{
  ℕ, ◌+◌, ◌≤◌, String, ◌≡◌, ◌≢◌, refl, Bool, true, Option, none, some, arith, subst, str_eq, eq_iff,
  ◌⊎◌, inl, inr, Bool-cases, Option-cases,
}
use auto_apply.Llm.Breaker.{
  BreakerState, opened, half_open, Breaker, Table, fresh, put, update_where, ensure_breaker,
  claim_trial, may_claim, claimed, counted, tripped, increment_failure, trip_circuit, reset_circuit,
}
use auto_apply.Llm.Breaker.Laws.{update_where-miss, update_where-hit}

-- the shortest time for which a circuit opens: thirty seconds
abbrev pub cooldown_floor : ℕ
cooldown_floor = 30_000_000

-- One move. There is none from `opened` to `closed`, and none from `closed` to `half_open`.
pub data Edge (now : ℕ) : Option Breaker → Option Breaker → Type 0 where
  create : Edge now none (some fresh)
  claim : (b : Breaker) → may_claim now b ≡ true → Edge now (some b) (some (claimed now b))
  count : (b : Breaker) → b.state ≢ opened → Edge now (some b) (some (counted now b))
  trip :
      (b : Breaker) (cooldown : ℕ)
      → b.state ≢ opened
      → now + cooldown_floor ≤ cooldown
      → Edge now (some b) (some (tripped 0 cooldown now b))
  restore : (b : Breaker) → b.state ≡ half_open → Edge now (some b) (some fresh)

pub data Moves (now : ℕ) (o : Option Breaker) : Option Breaker → Type 0 where
  here : Moves now o o
  next : {p q : Option Breaker} → Moves now o p → Edge now p q → Moves now o q

pub Moves-trans : {now : ℕ} {o p q : Option Breaker} → Moves now o p → Moves now p q → Moves now o q
Moves-trans m here = m
Moves-trans m (next k e) = next (Moves-trans m k) e

-- `t'` comes from `t` by moves of the rows of the user `u`; no other user's row differs.
pub record Follows (now u : ℕ) (t t' : Table) : Type 0 where
  pub moves : (n : String) → Moves now (t u n) (t' u n)
  pub others : (v : ℕ) (n : String) → v ≢ u → t' v n ≡ t v n

pub Follows-refl : {now u : ℕ} (t : Table) → Follows now u t t
Follows-refl t = record { moves = λ n. here; others = λ v n h. refl }

pub Follows-trans :
    {now u : ℕ} {t t' t'' : Table} → Follows now u t t' → Follows now u t' t'' → Follows now u t t''
Follows-trans f g = record {
  moves = λ n. Moves-trans (f.moves n) (g.moves n);
  others = λ v n h. cc (f.others v n h, g.others v n h);
}

-- a row that `put` writes, and one that it does not
put_cases :
    (t : Table) (u : ℕ) (n : String) (b : Breaker) (m : String)
    → ((n ≡ m) × (put t u n b u m ≡ some b)) ⊎ (put t u n b u m ≡ t u m)
unfolding put
put_cases t u n b m = elim (Bool-cases (str_eq n m)) [
  | inl e ↦ inl ((eq_iff n m).0 e, ground (arith))
  | inr e ↦ inr (ground arith)
]

put_other :
    (t : Table) (u : ℕ) (n : String) (b : Breaker) (v : ℕ) (m : String)
    → v ≢ u
    → put t u n b v m ≡ t v m
unfolding put
put_other t u n b v m h = ground arith

pub Follows-put :
    {now u : ℕ} (t : Table) (n : String) (b : Breaker)
    → Edge now (t u n) (some b)
    → Follows now u t (put t u n b)
Follows-put {now} {u} t n b e = record {
  moves = λ m. elim (put_cases t u n b m) [
    | inl (same, w) ↦ rw w (next here (subst (λ k. Edge now (t u k) (some b)) same e))
    | inr w ↦ rw w here
  ];
  others = λ v m h. put_other t u n b v m h;
}

Follows-update_where :
    {now u : ℕ} (t : Table) (n : String) (guard : Breaker → Bool) (change : Breaker → Breaker)
    → ((b : Breaker) → guard b ≡ true → Edge now (some b) (some (change b)))
    → Follows now u t (update_where t u n guard change).1
Follows-update_where {now} {u} t n guard change edge =
    elim (Bool-cases (update_where t u n guard change).0) [
      | inl hit ↦
          let (b, row, can, same) = update_where-hit t u n guard change hit in
          rw same (Follows-put t n (change b) (rw row (edge b can)))
      | inr miss ↦ rw (update_where-miss t u n guard change miss) (Follows-refl t)
    ]

pub Follows-ensure : {now u : ℕ} (t : Table) (n : String) → Follows now u t (ensure_breaker t u n)
unfolding ensure_breaker
Follows-ensure {now} {u} t n = elim (Option-cases (t u n)) [
  | inl e ↦ rw (e, ensure_breaker) (Follows-put t n fresh (rw e create))
  | inr (b, e) ↦ rw (e, ensure_breaker) (Follows-refl t)
]

pub Follows-claim : {now u : ℕ} (t : Table) (n : String) → Follows now u t (claim_trial t u n now).1
unfolding claim_trial
Follows-claim {now} t n = Follows-update_where t n (may_claim now) (claimed now) claim

pub Follows-increment :
    {now u : ℕ} (t : Table) (n : String) (c : ℕ) → Follows now u t (increment_failure t u n c now).1
unfolding increment_failure
Follows-increment {now} t n c =
    Follows-update_where t n _ (counted now) λ b h. count b (ground arith)

pub Follows-trip :
    {now u : ℕ} (t : Table) (n : String) (cooldown : ℕ) (observed : BreakerState)
    → observed ≢ opened
    → now + cooldown_floor ≤ cooldown
    → Follows now u t (trip_circuit t u n 0 cooldown now observed).1
unfolding trip_circuit
Follows-trip {now} t n cooldown observed h k =
    Follows-update_where t n _ (tripped 0 cooldown now) λ b e. trip b cooldown (ground arith) k

pub Follows-reset :
    {now u : ℕ} (t : Table) (n : String) → Follows now u t (reset_circuit t u n half_open).1
unfolding reset_circuit
Follows-reset {now} t n = Follows-update_where t n _ (λ b. fresh) λ b e. restore b (ground arith)
