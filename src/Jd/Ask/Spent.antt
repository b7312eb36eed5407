-- ===== src/Jd/Ask/Spent.antt =====
-- What the two doors that ask a model spend (backend/app/core_engine/jd_extractor.py).
use auto_apply.Common.{
  ℕ, ◌+◌, ◌*◌, ◌≤◌, ◌≡◌, refl, false, Option, none, [], Text, arith, if_induction, length, leb, ◌∙◌,
}
use auto_apply.Common.Exec.{
  Exec, Outcome, ok, err, Leaves, bind-Leaves, weaker-Leaves, continue, pure, raise, ◌>>=◌, ◌>>◌,
}
use auto_apply.Json.{Value}
use auto_apply.Llm.Store.{World, list_active_providers}
use auto_apply.Llm.Router.Types.{RouterError, LlmResponse}
use auto_apply.Llm.Router.Resolve.{resolve_chain, chain_names}
use auto_apply.Llm.Router.Route.{route_llm_request}
use auto_apply.Llm.Router.Count.{
  Config, Config-trans, route_llm_request-Config, route_llm_request-length,
}
use auto_apply.Jd.Budget.{
  BudgetTracker, JdError, accrue, guard_plan, consume_call, over_budget, fits, budget_exceeded,
}
use auto_apply.Jd.Env.{JdEnv, Run, on_budget}
use auto_apply.Jd.Section.{routed, jd_request}

-- the providers that a request of the extraction may call
abbrev pub chain_size : ℕ → World → ℕ
chain_size user_id w = length (resolve_chain w (jd_request user_id [] [] none))

chain_size-Config :
    (user_id : ℕ) (w v : World) → Config w v → chain_size user_id v ≡ chain_size user_id w
unfolding resolve_chain chain_names list_active_providers
chain_size-Config user_id w v (p, q) = rw (p, q, chain_names)

split_product : (a b n : ℕ) → (a + b) * n ≡ a * n + b * n
split_product a b n = ground arith

-- `k` calls of the budget, and at most `k` requests' worth of provider calls
abbrev pub Spends : ℕ → Run → Run → Type 0
Spends user_id r s =
    (k : ℕ) × (s.budget.call_count ≡ r.budget.call_count + k)
    × (length s.llm.calls ≤ length r.llm.calls + k * chain_size user_id r.llm)
    × Config r.llm s.llm
    × (s.budget.cap ≡ r.budget.cap)
    × (r.budget.call_count ≤ r.budget.cap → s.budget.call_count ≤ s.budget.cap)

module _ (user_id : ℕ) where
  pub Spends-refl : (r : Run) → Spends user_id r r
  Spends-refl r = (0, omega arith, omega arith, (refl, refl), refl, λ h. h)

  pub Spends-trans : (r s t : Run) → Spends user_id r s → Spends user_id s t → Spends user_id r t
  Spends-trans r s t (k, c, l, g, p, h) (k', c', l', g', p', h') =
      let more : length t.llm.calls ≤ length s.llm.calls + k' * chain_size user_id r.llm =
        (rw (chain_size-Config user_id r.llm s.llm g) at l') in
      (
        k + k',
        omega arith,
        omega (arith, split_product k k' (chain_size user_id r.llm), more),
        Config-trans r.llm s.llm t.llm g g',
        p' ∙ p,
        λ i. h' (h i),
      )

  abbrev pub KeepsSpends : {A : Type 0} → Run → Outcome JdError A × Run → Type 0
  KeepsSpends r = Leaves (λ _ s. Spends user_id r s) (λ s. Spends user_id r s)

  -- a method behind one that has spent
  pub bind-Spends :
      {A B : Type 0} (r : Run) (m : Exec Run JdError A) (f : A → Exec Run JdError B)
      → KeepsSpends r (m r)
      → ((a : A) (s : Run) → KeepsSpends s (f a s))
      → KeepsSpends r ((m >>= f) r)
  bind-Spends r m f h k =
      bind-Leaves (λ _ s. Spends user_id r s) (λ _ s. Spends user_id r s) (λ s. Spends user_id r s)
        m f r h
        (λ a s j.
          weaker-Leaves (λ _ t. Spends user_id s t) (λ _ t. Spends user_id r t)
            (λ t. Spends user_id s t) (λ t. Spends user_id r t) (f a s)
            (λ b t. Spends-trans r s t j) (λ t. Spends-trans r s t j) (k a s))

  pub accrue-Spends : (p c : ℕ) (r : Run) → KeepsSpends r (on_budget (accrue p c) r)
  unfolding accrue
  accrue-Spends p c r =
      let spent : BudgetTracker = record r.budget {
        used_tokens = r.budget.used_tokens + (p + c);
      } in
      if_induction
        (λ (m : Exec BudgetTracker JdError Unit).
          KeepsSpends r ((m spent).0, record r { budget = (m spent).1 }))
        (over_budget spent) (raise budget_exceeded) (pure tt) (λ _. Spends-refl r)
        (λ _. Spends-refl r)

  pub guard_plan-Spends : (planned : ℕ) (r : Run) → KeepsSpends r (on_budget (guard_plan planned) r)
  unfolding guard_plan
  guard_plan-Spends planned r =
      if_induction
        (λ (m : Exec BudgetTracker JdError Unit).
          KeepsSpends r ((m r.budget).0, record r { budget = (m r.budget).1 }))
        (fits planned r.budget) (pure tt) (raise budget_exceeded) (λ _. Spends-refl r)
        (λ _. Spends-refl r)

  room_left : (cap n : ℕ) → leb cap n ≡ false → n + 1 ≤ cap
  room_left cap n h = ground arith

  -- one call of the budget pays for one routed request
  pub request-Spends :
      {A : Type 0} (env : JdEnv) (prompt system : Text) (schema : Option Value)
      (f : Outcome RouterError LlmResponse → Exec Run JdError A) (r : Run)
      → ((o : Outcome RouterError LlmResponse) (s : Run) → KeepsSpends s (f o s))
      → KeepsSpends r (
          (on_budget consume_call >> (routed env (jd_request user_id prompt system schema) >>= f))
            r)
  unfolding consume_call resolve_chain chain_names
  request-Spends {A} env prompt system schema f r k =
      if_induction
        (λ (o : Outcome JdError Unit × BudgetTracker). KeepsSpends r (
          continue o.0 (λ _. routed env (jd_request user_id prompt system schema) >>= f)
            (record r { budget = o.1 })))
        (leb r.budget.cap r.budget.call_count) (err budget_exceeded, r.budget)
        (ok tt, record r.budget { call_count = r.budget.call_count + 1 }) (λ _. Spends-refl r)
        (λ e.
          weaker-Leaves (λ _ t. Spends user_id after_request t) (λ _ t. Spends user_id r t)
            (λ t. Spends user_id after_request t) (λ t. Spends user_id r t) _
            (λ b t. Spends-trans r after_request t (paid e))
            (λ t. Spends-trans r after_request t (paid e)) (k answer after_request))
    where
      answer : Outcome RouterError LlmResponse
      answer =
          (route_llm_request env.router (jd_request user_id prompt system schema)
            (env.router_time (length r.llm.calls)) r.llm).0

      after_request : Run
      after_request = record r {
        llm =
            (route_llm_request env.router (jd_request user_id prompt system schema)
              (env.router_time (length r.llm.calls)) r.llm).1;
        budget = record r.budget { call_count = r.budget.call_count + 1 };
      }

      paid : leb r.budget.cap r.budget.call_count ≡ false → Spends user_id r after_request
      paid e = (
        1,
        refl,
        omega (
          arith,
          route_llm_request-length env.router (jd_request user_id prompt system schema)
              (env.router_time (length r.llm.calls)) r.llm,
        ),
        route_llm_request-Config env.router (jd_request user_id prompt system schema)
            (env.router_time (length r.llm.calls)) r.llm,
        refl,
        λ h. room_left r.budget.cap r.budget.call_count e,
      )
