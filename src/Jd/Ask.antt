-- ===== src/Jd/Ask.antt =====
-- The fourth and the fifth door of `extract_job`: a model is asked for every section, and once more
-- for what is still missing (backend/app/core_engine/jd_extractor.py).
pub mod Guarded
pub mod Spent
pub mod Bounds
use auto_apply.Common.{
  ℕ, ◌+◌, ◌-◌, String, Bool, true, false, not, ◌&&◌, Option, none, some, List, [], ◌∷◌, ◌++◌, Text,
  if◌then◌else◌,
}
use auto_apply.Common.Exec.{Exec, Outcome, ok, err, pure, raise, gets, modify, ◌>>=◌, ◌>>◌}
use auto_apply.Json.{Value, null, bool, str, arr, obj, Fields, no_fields, field, Items, no_items}
use auto_apply.Llm.JsonText.{parse_llm_json}
use auto_apply.Llm.Router.Types.{LlmResponse, RouterError, providers_exhausted}
use auto_apply.Jd.Budget.{
  JdError, uncaught, guard_plan, consume_call, accrue, fits, estimate_tokens, trim_to_token_limit,
  section_max_input_tokens,
}
use auto_apply.Jd.Injection.{is_refusal, check_for_prompt_injection}
use auto_apply.Jd.Schema.{merge_over}
use auto_apply.Jd.Env.{JdEnv, Run, on_budget, handle}
use auto_apply.Jd.Doors.{is_blank_text, is_missing, missing_criticals}
use auto_apply.Jd.Section.{
  SectionResult, run_door4_section, routed, jd_request, without_meta, keys_in_order, int_value,
}

abbrev pub door4_sections : List String
door4_sections = "header_core" ∷ "responsibilities" ∷ "skills" ∷ "good_to_have" ∷ []

-- `gaps_recorded` and `door4_section_trace`
pub record Trace : Type 0 where
  pub gaps : List String
  pub sections : List Value

abbrev pub gap_value : Option String → Value
gap_value none = null
gap_value (some g) = str g

abbrev pub merged_keys : Option Fields → Items
merged_keys none = no_items
merged_keys (some fs) = keys_in_order fs

abbrev pub trace_entry : String → Bool → Option String → Items → ℕ → Value
trace_entry section ok_flag gap keys_merged delta = obj (
    field "section" (str section) (
      field "ok" (bool ok_flag) (
        field "gap" (gap_value gap) (
          field "keys_merged" (arr keys_merged)
            (field "calls_used_delta" (int_value delta) no_fields)))))

abbrev pub is_no_gap : Option String → Bool
is_no_gap none = true
is_no_gap (some s) = false

abbrev pub add_gap : Option String → List String → List String
add_gap none gaps = gaps
add_gap (some g) gaps = gaps ++ g ∷ []

abbrev pub note_section : String → ℕ → SectionResult → Trace → Exec Run JdError Trace
note_section section start_count (section_dict, gap) t r =
    pure
      (record t {
        gaps = add_gap gap t.gaps;
        sections =
            t.sections
            ++ trace_entry section (is_no_gap gap) gap (merged_keys section_dict)
                (r.budget.call_count - start_count)
              ∷ [];
      })
      r

-- the entries of a page that no section is asked for
abbrev pub skipped_sections : String → List String → List Value
skipped_sections gap [] = []
skipped_sections gap (s ∷ l) = trace_entry s false (some gap) no_items 0 ∷ skipped_sections gap l

abbrev pub no_trace : Trace
no_trace = record { gaps = []; sections = [] }

module _ (env : JdEnv) (user_id : ℕ) (url : String) where
  unfoldable pub run_sections : Text → List String → Trace → Exec Run JdError Trace
  run_sections text [] t = pure t
  run_sections text (section ∷ rest) t = do
    before ← gets (λ (r : Run). r.budget.call_count)
    result ← run_door4_section env user_id url section text
    noted ← note_section section before result t
    run_sections text rest noted

  unfoldable pub run_door4 : Text → Bool → Exec Run JdError Trace
  unfolding run_sections
  run_door4 text flagged =
      let reason = if flagged then "prompt_injection_flagged" else "empty_text" in
      if not flagged && not (is_blank_text text)
      then run_sections text door4_sections no_trace
      else pure (record { gaps = reason ∷ []; sections = skipped_sections reason door4_sections })

  -- the fifth door's answer, inside its `try`
  abbrev pub merge_parsed : Option Value → Exec Run JdError (List String)
  merge_parsed none = pure []
  merge_parsed (some (obj fs)) = do
    modify (λ (r : Run). record r { accumulator = merge_over r.accumulator (without_meta fs) })
    pure []
  merge_parsed (some _) = raise (uncaught "AttributeError")

  abbrev pub read_door5 : LlmResponse → Exec Run JdError (List String)
  read_door5 resp = do
    on_budget (accrue resp.prompt_tokens resp.completion_tokens)
    (if is_refusal env.lower resp.content
        then pure []
        else merge_parsed (parse_llm_json env.loads resp.content))

  abbrev pub door5_error : JdError → Exec Run JdError (List String)
  door5_error e = pure ("door5: router_error" ∷ [])

  abbrev pub on_door5 : Outcome RouterError LlmResponse → Exec Run JdError (List String)
  on_door5 (err (providers_exhausted message attempts consumed)) =
      pure ("door5: router_exhausted" ∷ [])
  on_door5 (err e) = pure ("door5: router_error" ∷ [])
  on_door5 (ok resp) = λ r. handle door5_error (read_door5 resp r)

  -- the one call, for an input that was trimmed to `text`
  abbrev pub send_door5 : Text → List String → ℕ → Exec Run JdError (List String)
  send_door5 text missing planned = do
    on_budget (guard_plan planned)
    on_budget consume_call
    answer ← routed env (jd_request user_id (env.door5_prompt text missing) env.door5_system none)
    on_door5 answer

  unfoldable pub ask_door5 : Text → List String → Exec Run JdError (List String)
  ask_door5 text missing r =
      let trimmed = trim_to_token_limit env.tokenizer text section_max_input_tokens in
      let planned = trimmed.estimated_tokens + estimate_tokens env.door5_system in
      (if fits planned r.budget
          then send_door5 trimmed.text missing planned
          else pure ("door5_budget_skip" ∷ []))
        r

  abbrev pub ask_missing : Text → Bool → List String → Exec Run JdError (List String)
  ask_missing text flagged missing =
      if is_missing missing && not (is_blank_text text) && not flagged
      then ask_door5 text missing
      else pure []

  -- the gaps that the fifth door adds
  unfoldable pub run_door5 : Text → Bool → Exec Run JdError (List String)
  run_door5 text flagged r =
      (do missing ← missing_criticals r.accumulator; ask_missing text flagged missing) r

  -- both doors, for a text that is flagged or not
  unfoldable pub ask_unless : Text → Bool → Exec Run JdError Trace
  ask_unless text flagged = do
    t ← run_door4 text flagged
    more ← run_door5 text flagged
    pure (record t { gaps = t.gaps ++ more })

  unfoldable pub ask_models : Text → Exec Run JdError Trace
  ask_models text = ask_unless text (check_for_prompt_injection env.lower text)
