-- ===== src/Jd/Ask/Bounds.antt =====
-- The bound on the provider calls of one extraction (backend/app/core_engine/jd_extractor.py).
use auto_apply.Common.{
  ℕ, ◌+◌, String, Bool, not, ◌&&◌, Option, none, some, List, [], ◌∷◌, Text, if_induction,
}
use auto_apply.Common.Exec.{Exec, Outcome, ok, err, pure, ◌>>=◌}
use auto_apply.Json.{Value, Fields, obj}
use auto_apply.Llm.JsonText.{parse_llm_json}
use auto_apply.Llm.Router.Types.{RouterError, LlmResponse, providers_exhausted, master_key_error}
use auto_apply.Jd.Budget.{
  JdError, accrue, guard_plan, fits, estimate_tokens, trim_to_token_limit, section_max_input_tokens,
}
use auto_apply.Jd.Injection.{is_refusal, check_for_prompt_injection}
use auto_apply.Jd.Schema.{gaps_for}
use auto_apply.Jd.Env.{JdEnv, Run, on_budget, handle}
use auto_apply.Jd.Section.{
  SectionResult, routing_failed, answered_section, on_answer, on_parsed, on_model,
  run_door4_section, refused, without_meta, section_input,
}
use auto_apply.Jd.Doors.{is_blank_text, is_missing, gaps_or_raise}
use auto_apply.Jd.Ask.{
  Trace, no_trace, door4_sections, run_sections, run_door4, run_door5, ask_door5, send_door5,
  ask_missing, on_door5, read_door5, merge_parsed, door5_error, ask_unless, ask_models,
}
use auto_apply.Jd.Ask.Spent.{
  Spends-refl, KeepsSpends, bind-Spends, accrue-Spends, guard_plan-Spends, request-Spends,
}

module _ (env : JdEnv) (user_id : ℕ) (url : String) where
  on_model-Spends :
      (section : String) (resp : LlmResponse) (parsed : Fields) (o : Outcome String Fields)
      (r : Run)
      → KeepsSpends user_id r (on_model env user_id url section resp parsed o r)
  on_model-Spends section resp parsed (ok dump) r = Spends-refl user_id r
  on_model-Spends section resp parsed (err problem) r = Spends-refl user_id r

  on_parsed-Spends :
      (section : String) (resp : LlmResponse) (o : Option Value) (r : Run)
      → KeepsSpends user_id r (on_parsed env user_id url section resp o r)
  on_parsed-Spends section resp none r = Spends-refl user_id r
  on_parsed-Spends section resp (some (obj fs)) r =
      on_model-Spends section resp (without_meta fs)
        (env.section_model section (section_input section (without_meta fs))) r
  on_parsed-Spends section resp (some v) r = Spends-refl user_id r

  answered_section-Spends :
      (section : String) (resp : LlmResponse) (r : Run)
      → KeepsSpends user_id r (answered_section env user_id url section resp r)
  unfolding answered_section
  answered_section-Spends section resp r =
      bind-Spends user_id r (on_budget (accrue resp.prompt_tokens resp.completion_tokens)) _
        (accrue-Spends user_id resp.prompt_tokens resp.completion_tokens r)
        (λ _ s.
          if_induction (λ (m : Exec Run JdError SectionResult). KeepsSpends user_id s (m s))
            (is_refusal env.lower resp.content) (refused env user_id url section resp)
            (on_parsed env user_id url section resp (parse_llm_json env.loads resp.content))
            (λ _. Spends-refl user_id s) (λ _. on_parsed-Spends section resp _ s))

  on_answer-Spends :
      (section : String) (planned : ℕ) (o : Outcome RouterError LlmResponse) (r : Run)
      → KeepsSpends user_id r (on_answer env user_id url section planned o r)
  unfolding routing_failed
  on_answer-Spends section planned (ok resp) r = answered_section-Spends section resp r
  on_answer-Spends section planned (err (providers_exhausted m l cs)) r =
      bind-Spends user_id r (on_budget (accrue planned 0)) _ (accrue-Spends user_id planned 0 r)
        (λ _ s. Spends-refl user_id s)
  on_answer-Spends section planned (err master_key_error) r =
      bind-Spends user_id r (on_budget (accrue planned 0)) _ (accrue-Spends user_id planned 0 r)
        (λ _ s. Spends-refl user_id s)

  run_door4_section-Spends :
      (section : String) (text : Text) (r : Run)
      → KeepsSpends user_id r (run_door4_section env user_id url section text r)
  unfolding run_door4_section
  run_door4_section-Spends section text r =
      bind-Spends user_id r (on_budget (guard_plan _)) _ (guard_plan-Spends user_id _ r) (λ _ s.
        request-Spends user_id env _ _ _ (on_answer env user_id url section _) s
          (λ o t. on_answer-Spends section _ o t))

  run_sections-Spends :
      (text : Text) (sections : List String) (t : Trace) (r : Run)
      → KeepsSpends user_id r (run_sections env user_id url text sections t r)
  unfolding run_sections
  run_sections-Spends text [] t r = Spends-refl user_id r
  run_sections-Spends text (section ∷ rest) t r =
      bind-Spends user_id r (run_door4_section env user_id url section text) _
        (run_door4_section-Spends section text r) (λ result s. run_sections-Spends text rest _ s)

  run_door4-Spends :
      (text : Text) (flagged : Bool) (r : Run)
      → KeepsSpends user_id r (run_door4 env user_id url text flagged r)
  unfolding run_door4
  run_door4-Spends text flagged r =
      if_induction (λ (m : Exec Run JdError Trace). KeepsSpends user_id r (m r))
        (not flagged && not (is_blank_text text))
        (run_sections env user_id url text door4_sections no_trace) _
        (λ _. run_sections-Spends text door4_sections no_trace r) (λ _. Spends-refl user_id r)

  merge_parsed-Spends :
      (o : Option Value) (r : Run) → KeepsSpends user_id r (merge_parsed env user_id url o r)
  merge_parsed-Spends none r = Spends-refl user_id r
  merge_parsed-Spends (some (obj fs)) r = Spends-refl user_id r
  merge_parsed-Spends (some v) r = Spends-refl user_id r

  read_door5-Spends :
      (resp : LlmResponse) (r : Run) → KeepsSpends user_id r (read_door5 env user_id url resp r)
  read_door5-Spends resp r =
      bind-Spends user_id r (on_budget (accrue resp.prompt_tokens resp.completion_tokens)) _
        (accrue-Spends user_id resp.prompt_tokens resp.completion_tokens r)
        (λ _ s.
          if_induction (λ (m : Exec Run JdError (List String)). KeepsSpends user_id s (m s))
            (is_refusal env.lower resp.content) (pure [])
            (merge_parsed env user_id url (parse_llm_json env.loads resp.content))
            (λ _. Spends-refl user_id s)
            (λ _. merge_parsed-Spends (parse_llm_json env.loads resp.content) s))

  handled-Spends :
      (r s : Run) (o : Outcome JdError (List String))
      → KeepsSpends user_id r (o, s)
      → KeepsSpends user_id r (handle (door5_error env user_id url) (o, s))
  handled-Spends r s (ok l) h = h
  handled-Spends r s (err e) h = h

  on_door5-Spends :
      (o : Outcome RouterError LlmResponse) (r : Run)
      → KeepsSpends user_id r (on_door5 env user_id url o r)
  on_door5-Spends (ok resp) r =
      handled-Spends r (read_door5 env user_id url resp r).1 (read_door5 env user_id url resp r).0
        (read_door5-Spends resp r)
  on_door5-Spends (err (providers_exhausted m l cs)) r = Spends-refl user_id r
  on_door5-Spends (err master_key_error) r = Spends-refl user_id r

  send_door5-Spends :
      (text : Text) (missing : List String) (planned : ℕ) (r : Run)
      → KeepsSpends user_id r (send_door5 env user_id url text missing planned r)
  send_door5-Spends text missing planned r =
      bind-Spends user_id r (on_budget (guard_plan planned)) _ (guard_plan-Spends user_id planned r)
        (λ _ s.
          request-Spends user_id env _ _ _ (on_door5 env user_id url) s
            (λ o t. on_door5-Spends o t))

  ask_door5-Spends :
      (text : Text) (missing : List String) (r : Run)
      → KeepsSpends user_id r (ask_door5 env user_id url text missing r)
  unfolding ask_door5
  ask_door5-Spends text missing r =
      let trimmed = trim_to_token_limit env.tokenizer text section_max_input_tokens in
      let planned = trimmed.estimated_tokens + estimate_tokens env.door5_system in
      if_induction (λ (m : Exec Run JdError (List String)). KeepsSpends user_id r (m r))
        (fits planned r.budget) (send_door5 env user_id url trimmed.text missing planned)
        (pure ("door5_budget_skip" ∷ [])) (λ _. send_door5-Spends trimmed.text missing planned r)
        (λ _. Spends-refl user_id r)

  run_door5-Spends :
      (text : Text) (flagged : Bool) (r : Run)
      → KeepsSpends user_id r (run_door5 env user_id url text flagged r)
  unfolding run_door5
  run_door5-Spends text flagged r = go (gaps_for r.accumulator)
    where
      go :
          (o : Option (List String))
          → KeepsSpends user_id r ((gaps_or_raise o >>= ask_missing env user_id url text flagged) r)
      go none = Spends-refl user_id r
      go (some missing) =
          if_induction (λ (m : Exec Run JdError (List String)). KeepsSpends user_id r (m r))
            (is_missing missing && not (is_blank_text text) && not flagged)
            (ask_door5 env user_id url text missing) (pure [])
            (λ _. ask_door5-Spends text missing r) (λ _. Spends-refl user_id r)

  pub ask_models-Spends :
      (text : Text) (r : Run) → KeepsSpends user_id r (ask_models env user_id url text r)
  unfolding ask_models ask_unless
  ask_models-Spends text r =
      let flagged = check_for_prompt_injection env.lower text in
      bind-Spends user_id r (run_door4 env user_id url text flagged) _
        (run_door4-Spends text flagged r)
        (λ t s.
          bind-Spends user_id s (run_door5 env user_id url text flagged) _
            (run_door5-Spends text flagged s) (λ more u. Spends-refl user_id u))
