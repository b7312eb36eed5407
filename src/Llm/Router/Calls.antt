-- ===== src/Llm/Router/Calls.antt =====
-- Which calls reach a provider, and what each turn reports of them.
use auto_apply.Common.{
  ℕ, String, ◌≡◌, refl, Bool, true, false, List, [], ◌∷◌, ◌++◌, arith, Bool-cases, inl, inr, ◌⊎◌,
}
use auto_apply.Common.Exec.{Outcome, ok, err}
use auto_apply.Llm.Gate.{handle_breakers}
use auto_apply.Llm.Gate.Laws.{ready, handle_breakers_lem}
use auto_apply.Llm.Registry.{is_registered}
use auto_apply.Llm.Store.{ProviderRow, ChatResponse, Call, World}
use auto_apply.Llm.Router.Types.{
  Env, Request, RouterError, is_answered, is_unavailable, master_key_error,
}
use auto_apply.Llm.Router.Attempt.{
  Verdict, replied, lost, Key, usable, unreadable, fatal, read_key, record_failure, record_success,
  settle, with_key, after_gate, attempt_provider, call_for,
}

-- The calls that a turn for `name` makes are told by its verdict: one for an answer or a consumed
-- failure, none otherwise; what it reports bears the provider's name.
abbrev pub Reports : String → List Call → List Call → Outcome RouterError Verdict → Type 0
Reports name before after (ok (replied r)) =
    (c : Call) × (after ≡ before ++ c ∷ []) × (c.provider ≡ name) × (r.provider ≡ name)
Reports name before after (ok (lost true a)) =
    (c : Call) × (after ≡ before ++ c ∷ []) × (c.provider ≡ name) × (a.provider ≡ name)
Reports name before after (ok (lost false a)) = (after ≡ before) × (a.provider ≡ name)
Reports name before after (err e) = (after ≡ before) × (e ≡ master_key_error)

module _ (env : Env) (rq : Request) (now : ℕ) (name : String) (row : ProviderRow) where
  settle-Reports :
      (trial : Bool) (r : ChatResponse) (w : World) (before : List Call) (c : Call)
      → w.calls ≡ before ++ c ∷ []
      → c.provider ≡ name
      → Reports name before
          (settle env rq now name row trial r w).1.calls
          (ok (settle env rq now name row trial r w).0)
  unfolding settle record_failure record_success
  settle-Reports trial r w before c e p = elim (Bool-cases (is_answered r.status)) [
    | inl a ↦ rw a (c, e, p, refl)
    | inr a ↦ elim (Bool-cases (is_unavailable r.status)) [
      | inl b ↦ rw (a, b) (c, e, p, refl)
      | inr b ↦ rw (a, b) (c, e, p, refl)
    ]
  ]

  with_key-Reports :
      (trial : Bool) (k : Key) (w : World)
      → Reports name w.calls
          (with_key env rq now name row trial k w).1.calls
          (with_key env rq now name row trial k w).0
  unfolding with_key record_failure
  with_key-Reports trial (usable key) w =
      settle-Reports trial (env.chat _ _) _ w.calls (call_for rq name row key) refl refl
  with_key-Reports trial unreadable w = (refl, refl)
  with_key-Reports trial fatal w = (refl, refl)

  after_gate-Reports :
      (g : Bool × Bool) (w : World)
      → Reports name w.calls
          (after_gate env rq now name row g w).1.calls
          (after_gate env rq now name row g w).0
  unfolding after_gate
  after_gate-Reports (false, trial) w = (refl, refl)
  after_gate-Reports (true, trial) w = with_key-Reports trial (read_key env row.api_key_encrypted) w

  pub attempt_provider-Reports :
      (w : World)
      → Reports name w.calls
          (attempt_provider env rq now name row w).1.calls
          (attempt_provider env rq now name row w).0
  unfolding attempt_provider
  attempt_provider-Reports w = elim (Bool-cases (is_registered name)) [
    | inl e ↦ rw e (
        after_gate-Reports (handle_breakers w.breakers rq.user_id name now).0
          (record w { breakers = (handle_breakers w.breakers rq.user_id name now).1 }))
    | inr e ↦ rw e (refl, refl)
  ]

  after_gate_shut :
      (g : Bool × Bool) (w : World)
      → g.0 ≡ false
      → (after_gate env rq now name row g w).1.calls ≡ w.calls
  unfolding after_gate
  after_gate_shut (false, trial) w h = refl
  after_gate_shut (true, trial) w h = cc

  -- A turn makes no call if the provider is not registered, or if its circuit is not closed and
  -- its cooldown is not over.
  pub attempt_provider_blocked :
      (w : World)
      → (is_registered name ≡ false) ⊎ (ready now (w.breakers rq.user_id name) ≡ false)
      → (attempt_provider env rq now name row w).1.calls ≡ w.calls
  unfolding attempt_provider
  attempt_provider_blocked w (inl e) = rw e
  attempt_provider_blocked w (inr e) = elim (Bool-cases (is_registered name)) [
    | inl k ↦ rw k (
        after_gate_shut (handle_breakers w.breakers rq.user_id name now).0
          (record w { breakers = (handle_breakers w.breakers rq.user_id name now).1 })
          (ground (arith, handle_breakers_lem w.breakers rq.user_id name now)))
    | inr k ↦ rw k
  ]
