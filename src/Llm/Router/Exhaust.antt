-- ===== src/Llm/Router/Exhaust.antt =====
-- `_exhaust` (backend/app/llm/router.py): what is written when every provider has failed.
use Prim.Native.String
use auto_apply.Common.{ℕ, String, true, Option, none, some, List, [], ◌∷◌, if◌then◌else◌, one_of}
use auto_apply.Json.{
  Value, pos, null, bool, int, str, arr, obj, Fields, field, no_fields, Items, no_items, item,
}
use auto_apply.Llm.Store.{CheckpointRow, World, insert_audit, insert_error, insert_checkpoint}
use auto_apply.Llm.Router.Types.{
  Request, Attempt, Progress, ReplyNote, no_reply, latency_only, noted,
}

abbrev pub name_values : List String → Items
name_values [] = no_items
name_values (n ∷ ns) = item (str n) (name_values ns)

-- A number of the model stands for the source's, `null` for `None`.
abbrev pub number : Option ℕ → Value
number none = null
number (some n) = int (pos n)

abbrev pub repair_fields : Option (ℕ × ℕ) → Fields
repair_fields none = no_fields
repair_fields (some (used, most)) =
    field "repairs_used" (int (pos used)) (field "max_repairs" (int (pos most)) no_fields)

abbrev pub reply_fields : ReplyNote → Fields → Fields
reply_fields no_reply rest = rest
reply_fields (latency_only latency) rest = field "latency_ms" (int (pos latency)) rest
reply_fields (noted code after latency) rest =
    field "status_code" (number code)
      (field "retry_after" (number after) (field "latency_ms" (int (pos latency)) rest))

abbrev pub attempt_value : Attempt → Value
attempt_value a = obj (
    field "provider" (str a.provider) (
      field "status" (str a.status) (
        field "error_type" (str a.error_type) (
          field "called" (bool a.called) (
            field "skipped_by_breaker" (bool a.skipped_by_breaker)
              (reply_fields a.reply (repair_fields a.repairs)))))))

abbrev pub attempt_values : List Attempt → Items
attempt_values [] = no_items
attempt_values (a ∷ l) = item (attempt_value a) (attempt_values l)

abbrev pub optional : Option String → Value
optional none = null
optional (some s) = str s

-- `attempts or [{"provider": p, …, "error_type": "unknown", "called": True} for p in …]`
abbrev pub unknown_attempts : List String → Items
unknown_attempts [] = no_items
unknown_attempts (p ∷ l) =
    item
      (obj (
        field "provider" (str p) (
          field "status" (str "failed")
            (field "error_type" (str "unknown") (field "called" (bool true) no_fields)))))
      (unknown_attempts l)

abbrev pub attempts_or_unknown : Progress → Items
attempts_or_unknown p = elim p.attempts [
  | [] ↦ unknown_attempts p.consumed
  | a ∷ l ↦ attempt_values (a ∷ l)
]

-- `', '.join(…)`
abbrev pub comma_list : List String → String
comma_list [] = ""
comma_list (n ∷ []) = n
comma_list (n ∷ m ∷ ns) = String.◌++◌ n (String.◌++◌ ", " (comma_list (m ∷ ns)))

-- `', '.join(consumed) or 'none resolved'`
abbrev pub error_message : List String → String
error_message [] = "all LLM providers exhausted: none resolved"
error_message (n ∷ ns) = String.◌++◌ "all LLM providers exhausted: " (comma_list (n ∷ ns))

abbrev pub valid_pipeline_steps : List String
valid_pipeline_steps =
    "jd_extraction" ∷ "rubric_generation" ∷ "scoring" ∷ "optimization" ∷ "package_generation" ∷ []

abbrev pub checkpoint_for : ℕ → ℕ → String → String → Progress → CheckpointRow
checkpoint_for user_id job_id step message p = record {
  user_id = user_id;
  job_id = job_id;
  step = step;
  pipeline_state = obj (
      field "llm_all_providers_exhausted" (bool true) (
        field "failed_providers" (arr (name_values p.consumed)) (
          field "error_message" (str message)
            (field "attempts" (arr (attempts_or_unknown p)) no_fields))));
}

abbrev pub save_checkpoint : Request → String → Progress → Option ℕ → Option String → World → World
save_checkpoint rq message p (some job_id) (some step) w =
    if one_of step valid_pipeline_steps
    then insert_checkpoint (checkpoint_for rq.user_id job_id step message p) w
    else w
save_checkpoint rq message p _ _ w = w

unfoldable pub exhaust : Request → Progress → World → World
exhaust rq p w =
    let message = error_message p.consumed in
    save_checkpoint rq message p rq.job_id rq.step (
      insert_error
        (record {
          user_id = rq.user_id;
          component = "llm_router";
          error_type = "all_providers_exhausted";
          severity = "HIGH";
          message = message;
          job_id = rq.job_id;
          context = obj (
              field "providers_consumed" (arr (name_values p.consumed)) (
                field "attempts" (arr (attempts_or_unknown p))
                  (field "step" (optional rq.step) no_fields)));
          next_action = some "check provider health / quota and retry";
        })
        (insert_audit
          (record {
            user_id = rq.user_id;
            action = "all_providers_exhausted";
            resource_type = "system";
            resource_id = none;
            ip_address = none;
            details = obj (
                field "providers" (arr (name_values p.consumed)) (
                  field "error_message" (str message) (
                    field "attempts" (arr (attempts_or_unknown p))
                      (field "step" (optional rq.step) no_fields))));
          })
          w))
