-- ===== src/Jd/Section.antt =====
-- One section of the fourth door, `_run_door4_section` (backend/app/core_engine/jd_extractor.py).
use Prim.Native.String
use auto_apply.Common.{
  ℕ, ◌+◌, String, Bool, true, false, not, ◌&&◌, ◌||◌, ◌==◌, ltb, codes, Option, none, some, List,
  [], ◌∷◌, Text, str_eq, take, length, if◌then◌else◌,
}
use auto_apply.Common.Sort.{sort_by}
use auto_apply.Common.Exec.{Exec, Outcome, ok, err, pure, raise, modify, ◌>>=◌, ◌>>◌}
use auto_apply.Json.{
  Value, int, pos, str, text_of, arr, obj, Fields, no_fields, field, Items, no_items, item, get,
  set, filter_fields, keys, names, from_names,
}
use auto_apply.Llm.JsonText.{parse_llm_json}
use auto_apply.Llm.Store.{insert_error}
use auto_apply.Llm.Router.Types.{Request, LlmResponse, RouterError, providers_exhausted}
use auto_apply.Llm.Router.Exhaust.{attempt_values}
use auto_apply.Llm.Router.Route.{route_llm_request}
use auto_apply.Jd.Budget.{
  JdError, uncaught, guard_plan, consume_call, accrue, estimate_tokens, trim_to_token_limit,
  section_max_input_tokens,
}
use auto_apply.Jd.Injection.{is_refusal}
use auto_apply.Jd.Schema.{OtherEntry, other_from_wire, to_payload_dict, merge_over}
use auto_apply.Jd.Env.{JdEnv, Run, on_budget}

-- the class names of `SECTION_MODELS`
abbrev pub model_name : String → String
model_name section =
    if str_eq section "header_core"
    then "HeaderCoreSection"
    else if str_eq section "responsibilities"
    then "ResponsibilitiesSection"
    else if str_eq section "skills"
    then "SkillsSection"
    else "GoodToHaveSection"

-- what is caught around `route_llm_request`; its transaction is over
abbrev pub routed : JdEnv → Request → Exec Run JdError (Outcome RouterError LlmResponse)
routed env rq r =
    let (answer, w) =
      route_llm_request env.router rq (env.router_time (length r.llm.calls)) r.llm in
    (ok answer, record r { llm = w })

abbrev pub jd_request : ℕ → Text → Text → Option Value → Request
jd_request user_id prompt system schema = record {
  user_id = user_id;
  prompt = prompt;
  system_message = some system;
  provider_chain = none;
  job_id = none;
  step = none;
  json_mode = true;
  output_schema = schema;
}

-- `obs_repo.insert_error` of this component
abbrev pub report_error :
    ℕ → String → String → String → Fields → Option String → Exec Run JdError Unit
report_error user_id error_type severity message context next_action = modify (λ r. record r {
  llm =
      insert_error
        (record {
          user_id = user_id;
          component = "jd_extractor";
          error_type = error_type;
          severity = severity;
          message = message;
          job_id = none;
          context = obj context;
          next_action = next_action;
        })
        r.llm;
})

-- f"door-4 section {section!r}" and what follows
abbrev pub about_section : String → String → String
about_section section rest =
    String.◌++◌ "door-4 section '" (String.◌++◌ section (String.◌++◌ "'" rest))

abbrev pub int_value : ℕ → Value
int_value n = int (pos n)

-- the order of Python's texts
abbrev pub text_leb : Text → Text → Bool
text_leb [] t = true
text_leb (c ∷ s) [] = false
text_leb (c ∷ s) (d ∷ t) = ltb c d || (c == d && text_leb s t)

abbrev pub keys_in_order : Fields → Items
keys_in_order fs = from_names (sort_by (λ a b. text_leb (codes a) (codes b)) (keys fs))

-- what a section gives: its dict, or the gap that it leaves
abbrev pub SectionResult : Type 0
SectionResult = Option Fields × Option String

abbrev pub gap : String → String → SectionResult
gap section kind = (none, some (String.◌++◌ section (String.◌++◌ ": " kind)))

-- `entry.name` and `entry.values` of the validated list
abbrev pub entries_in : Items → List OtherEntry
entries_in no_items = []
entries_in (item (obj fs) rest) = elim (get "name" fs) [
  | some (str name) ↦ elim (get "values" fs) [
    | some (arr vs) ↦ record { name = name; values = names vs } ∷ entries_in rest
    | _ ↦ record { name = name; values = [] } ∷ entries_in rest
  ]
  | _ ↦ entries_in rest
]
entries_in (item _ rest) = entries_in rest

abbrev pub entries_of : Option Value → List OtherEntry
entries_of (some (arr vs)) = entries_in vs
entries_of _ = []

-- `if k != "_meta"`
abbrev pub without_meta : Fields → Fields
without_meta = filter_fields (λ k _. not (str_eq k "_meta"))

-- the validator of `other` runs before pydantic's own
abbrev pub section_input : String → Fields → Fields
section_input section fs =
    if str_eq section "good_to_have"
    then elim (get "other" fs) [ none ↦ fs | some v ↦ set "other" (other_from_wire v) fs ]
    else fs

-- `obj.model_dump(mode="json")`, with the dict of the residual categories in its place
abbrev pub section_payload : String → Fields → Fields
section_payload section dump =
    if str_eq section "good_to_have"
    then set "other" (obj (to_payload_dict (entries_of (get "other" dump)))) dump
    else dump

module _ (env : JdEnv) (user_id : ℕ) (url section : String) where
  -- `except ProvidersExhaustedError` and `except Exception`
  unfoldable pub routing_failed : ℕ → RouterError → Exec Run JdError SectionResult
  routing_failed planned (providers_exhausted message attempts consumed) = do
    on_budget (accrue planned 0)
    (λ (r : Run).
        report_error user_id "door4_providers_exhausted" "HIGH"
          (about_section section " exhausted every configured provider")
          (field "url" (str url) (
            field "section" (str section) (
              field "model" (str (model_name section)) (
                field "planned_tokens" (int_value planned) (
                  field "calls_used" (int_value r.budget.call_count) (
                    field "budget_used_tokens" (int_value r.budget.used_tokens) (
                      field "attempts" (arr (attempt_values attempts)) (
                        field "providers_consumed" (arr (from_names consumed))
                          (field "error_message" (str message) no_fields)))))))))
          (some "check provider quota/health; the section was skipped and left unmerged") r)
    pure (gap section "router_exhausted")
  routing_failed planned e = do
    on_budget (accrue planned 0)
    report_error user_id "door4_router_error" "HIGH"
        (about_section section (String.◌++◌ " failed in the router: " (env.describe e)))
        (field "url" (str url) (
          field "section" (str section) (
            field "model" (str (model_name section))
              (field "planned_tokens" (int_value planned) no_fields))))
        (some "inspect the router exception class/message above")
    pure (gap section "router_error")

  abbrev pub answer_context : LlmResponse → Fields → Fields
  answer_context resp rest = field "url" (str url) (
      field "section" (str section)
        (field "provider" (str resp.provider) (field "model" (str resp.model) rest)))

  abbrev pub refused : LlmResponse → Exec Run JdError SectionResult
  refused resp = do
    report_error user_id "door4_refused" "MEDIUM"
        (about_section section (String.◌++◌ " was refused by " resp.provider))
        (answer_context resp (field "content_prefix" (text_of (take 200 resp.content)) no_fields))
        none
    pure (gap section "refused")

  abbrev pub unparsed : LlmResponse → Exec Run JdError SectionResult
  unparsed resp = do
    report_error user_id "door4_parse_error" "HIGH"
        (about_section section " returned unparseable JSON")
        (answer_context resp (
          field "content_prefix" (text_of (take 200 resp.content)) (
            field "tokens_in" (int_value resp.prompt_tokens)
              (field "tokens_out" (int_value resp.completion_tokens) no_fields))))
        (some "the provider replied non-JSON; content prefix above for diagnosis")
    pure (gap section "parse_error")

  abbrev pub misfit : LlmResponse → Fields → String → Exec Run JdError SectionResult
  misfit resp parsed problem = do
    report_error user_id "door4_schema_error" "HIGH"
        (about_section section (String.◌++◌ " failed schema validation: " problem))
        (answer_context resp (field "parsed_keys" (arr (keys_in_order parsed)) no_fields)) none
    pure (gap section "schema_error")

  abbrev pub merged : Fields → Exec Run JdError SectionResult
  merged section_dict = do
    modify (λ (r : Run). record r { accumulator = merge_over r.accumulator section_dict })
    pure (some section_dict, none)

  abbrev pub on_model :
      LlmResponse → Fields → Outcome String Fields → Exec Run JdError SectionResult
  on_model resp parsed (err problem) = misfit resp parsed problem
  on_model resp parsed (ok dump) = merged (section_payload section dump)

  -- `parsed.items()` is outside of every `try`.
  abbrev pub on_parsed : LlmResponse → Option Value → Exec Run JdError SectionResult
  on_parsed resp none = unparsed resp
  on_parsed resp (some (obj fs)) =
      on_model resp (without_meta fs)
        (env.section_model section (section_input section (without_meta fs)))
  on_parsed resp (some _) = raise (uncaught "AttributeError")

  unfoldable pub answered_section : LlmResponse → Exec Run JdError SectionResult
  answered_section resp = do
    on_budget (accrue resp.prompt_tokens resp.completion_tokens)
    (if is_refusal env.lower resp.content
        then refused resp
        else on_parsed resp (parse_llm_json env.loads resp.content))

  abbrev pub on_answer : ℕ → Outcome RouterError LlmResponse → Exec Run JdError SectionResult
  on_answer planned (err e) = routing_failed planned e
  on_answer planned (ok resp) = answered_section resp

  unfoldable pub run_door4_section : Text → Exec Run JdError SectionResult
  run_door4_section text =
      let system = env.section_system section in
      let trimmed = trim_to_token_limit env.tokenizer text section_max_input_tokens in
      let planned = trimmed.estimated_tokens + estimate_tokens system in
      (do
        on_budget (guard_plan planned)
        on_budget consume_call
        answer ← routed env (
            jd_request user_id (env.section_prompt section trimmed.text) system
              (some (env.section_schema section)))
        on_answer planned answer)
