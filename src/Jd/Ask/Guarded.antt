-- ===== src/Jd/Ask/Guarded.antt =====
-- A flagged text and the two doors that ask a model (backend/app/core_engine/jd_extractor.py).
use auto_apply.Common.{
  ℕ, ◌≡◌, refl, String, Bool, true, false, not, ◌&&◌, Option, none, some, List, [], ◌∷◌, Text,
  if_induction, ap, ◌∙◌, arith,
}
use auto_apply.Common.Exec.{Exec, Outcome, ok, err, Leaves, pure, bind-Leaves, ◌>>=◌}
use auto_apply.Jd.Budget.{JdError}
use auto_apply.Jd.Injection.{mentions_any, injection_patterns}
use auto_apply.Jd.Injection.Scan.{check_for_prompt_injection-Exact}
use auto_apply.Jd.Schema.{DoorRoute, gaps_for}
use auto_apply.Jd.Env.{JdEnv, Run}
use auto_apply.Jd.Doors.{Page, gaps_or_raise, is_missing, is_blank_text}
use auto_apply.Jd.Ask.{Trace, run_door4, run_door5, ask_unless, ask_missing, ask_models, ask_door5}
use auto_apply.Jd.Extract.{ask_about, asked, new_run}
use auto_apply.Jd.Store.{Feed}

unflagged_only : (a b : Bool) → (a && b && not true) ≡ false
unflagged_only a b = ground arith

module _ (env : JdEnv) (user_id : ℕ) (url : String) (text : Text) (r : Run) where
  flagged_door5 :
      Leaves (λ more s. (s ≡ r) × (more ≡ [])) (λ s. s ≡ r) (run_door5 env user_id url text true r)
  unfolding run_door5
  flagged_door5 = go (gaps_for r.accumulator)
    where
      go :
          (o : Option (List String))
          → Leaves
              (λ more s. (s ≡ r) × (more ≡ []))
              (λ s. s ≡ r)
              ((gaps_or_raise o >>= ask_missing env user_id url text true) r)
      go none = refl
      go (some missing) =
          if_induction
            (λ (m : Exec Run JdError (List String)).
              Leaves (λ more s. (s ≡ r) × (more ≡ [])) (λ s. s ≡ r) (m r))
            (is_missing missing && not (is_blank_text text) && not true)
            (ask_door5 env user_id url text missing) (pure [])
            (λ e. absurd (cc (unflagged_only (is_missing missing) (not (is_blank_text text)), e)))
            (λ _. (refl, refl))

  -- nothing is asked, and the trace says why
  abbrev pub Untouched : Outcome JdError Trace × Run → Type 0
  Untouched = Leaves (λ t s. (s ≡ r) × (t.gaps ≡ "prompt_injection_flagged" ∷ [])) (λ s. s ≡ r)

  flagged_ask : Untouched (ask_unless env user_id url text true r)
  unfolding ask_unless run_door4
  flagged_ask =
      bind-Leaves (λ more s. (s ≡ r) × (more ≡ []))
        (λ (t : Trace) s. (s ≡ r) × (t.gaps ≡ "prompt_injection_flagged" ∷ [])) (λ s. s ≡ r)
        (run_door5 env user_id url text true) _ r flagged_door5 (λ more s (e, n). (e, rw n))

-- If the text of a page, in lower case, mentions one of the patterns anywhere, no model is asked: the
-- doors that ask leave the provider calls, the tables and the log as they were, and what they gather,
-- if they do not raise, are the fields of the page with no call spent. It is assumed that `lower`
-- keeps the empty text.
pub ask_about_flagged :
    (env : JdEnv) (now user_id : ℕ) (source : String) (route : DoorRoute) (page : Page) (f : Feed)
    → env.lower [] ≡ []
    → mentions_any injection_patterns (env.lower page.cleaned_text) ≡ true
    → Leaves
        (λ g f'.
          (f' ≡ f)
          × (g.fields ≡ page.accumulator)
          × (g.budget.call_count ≡ 0)
          × (g.trace.gaps ≡ "prompt_injection_flagged" ∷ []))
        (λ f'. f' ≡ f)
        (ask_about env now user_id source route page f)
unfolding ask_about ask_models
ask_about_flagged env now user_id source route page f e h =
    rw (check_for_prompt_injection-Exact env.lower e page.cleaned_text ∙ h) (
      go
        (ask_unless env user_id route.url page.cleaned_text true
          (new_run env now user_id source f page)).0
        (ask_unless env user_id route.url page.cleaned_text true
          (new_run env now user_id source f page)).1
        (flagged_ask env user_id route.url page.cleaned_text
          (new_run env now user_id source f page)))
  where
    go :
        (o : Outcome JdError Trace) (s : Run)
        → Untouched env user_id route.url page.cleaned_text
            (new_run env now user_id source f page)
            (o, s)
        → Leaves
            (λ g f'.
              (f' ≡ f)
              × (g.fields ≡ page.accumulator)
              × (g.budget.call_count ≡ 0)
              × (g.trace.gaps ≡ "prompt_injection_flagged" ∷ []))
            (λ f'. f' ≡ f)
            (asked env now user_id source f page (o, s))
    go (ok t) s (k, n) = (
      ap (λ (q : Run). record f { llm = q.llm }) k,
      ap (λ (q : Run). q.accumulator) k,
      ap (λ (q : Run). q.budget.call_count) k,
      n,
    )
    go (err x) s k = ap (λ (q : Run). record f { llm = q.llm }) k
