-- ===== src/Llm/Router/Attempt.antt =====
-- One provider's turn in the loop of `route_llm_request` (backend/app/llm/router.py).
use auto_apply.Common.{
  ℕ, String, Bool, true, false, ◌||◌, not, Option, none, some, [], ◌∷◌, ◌++◌, length, if◌then◌else◌,
  str_eq, is_empty_text,
}
use auto_apply.Common.Exec.{Exec, ok, ◌>>=◌, ◌>>◌, pure, raise, run, modify}
use auto_apply.Json.{str, obj, field, no_fields}
use auto_apply.Llm.Breaker.{half_open, Table, reset_circuit}
use auto_apply.Llm.Gate.{handle_breakers, handle_count_failure, handle_rate_limit, observed}
use auto_apply.Llm.Registry.{is_registered}
use auto_apply.Llm.Store.{ProviderRow, ChatResponse, Call, World, insert_usage, insert_audit}
use auto_apply.Llm.Router.Types.{
  Decryption, Env, Request, LlmResponse, Attempt, RouterError, text_or, content_or_empty,
  is_answered, is_unavailable, default_error, is_429, plaintext, decryption_error,
  master_key_missing, master_key_error, ReplyNote, no_reply, latency_only, noted,
}

unfoldable pub record_failure : Request → ProviderRow → String → ℕ → World → World
record_failure rq row error_type latency_ms w =
    insert_audit
      (record {
        user_id = rq.user_id;
        action = "llm_provider_failed";
        resource_type = "provider";
        resource_id = some row.id;
        ip_address = none;
        details =
            obj (field "provider" (str row.name) (field "error_type" (str error_type) no_fields));
      })
      (insert_usage
        (record {
          user_id = rq.user_id;
          provider_id = row.id;
          job_id = rq.job_id;
          prompt_tokens = 0;
          completion_tokens = 0;
          latency_ms = latency_ms;
          success = false;
          error_type = some error_type;
        })
        w)

unfoldable pub record_success : Request → ProviderRow → ChatResponse → World → World
record_success rq row response = insert_usage (record {
  user_id = rq.user_id;
  provider_id = row.id;
  job_id = rq.job_id;
  prompt_tokens = response.prompt_tokens;
  completion_tokens = response.completion_tokens;
  latency_ms = response.latency_ms;
  success = true;
  error_type = none;
})

abbrev pub on_breakers : (Table → Table) → World → World
on_breakers f w = record w { breakers = f w.breakers }

-- one provider's outcome: the answer, or the entry for `attempts` and whether it was consumed
pub data Verdict : Type 0 where
  replied : LlmResponse → Verdict
  lost : Bool → Attempt → Verdict

abbrev pub unregistered_attempt : String → Attempt
unregistered_attempt name = record {
  provider = name;
  status = "unregistered";
  error_type = "unregistered";
  called = false;
  skipped_by_breaker = false;
  reply = no_reply;
  repairs = none;
}

abbrev pub breaker_skip : String → Attempt
breaker_skip name = record {
  provider = name;
  status = "breaker_skip";
  error_type = "breaker_skip";
  called = false;
  skipped_by_breaker = true;
  reply = no_reply;
  repairs = none;
}

abbrev pub failed_attempt : String → String → ReplyNote → Attempt
failed_attempt name error_type reply = record {
  provider = name;
  status = "failed";
  error_type = error_type;
  called = true;
  skipped_by_breaker = false;
  reply = reply;
  repairs = none;
}

abbrev pub reply_of : ChatResponse → ReplyNote
reply_of response = noted response.status_code response.retry_after response.latency_ms

pub data Key : Type 0 where
  usable : Option String → Key
  unreadable fatal : Key

abbrev pub decrypted : Decryption → Key
decrypted (plaintext s) = usable (some s)
decrypted decryption_error = unreadable
decrypted master_key_missing = fatal

-- `row.get("api_key_encrypted")`, decrypted where it is neither missing nor empty
abbrev pub read_key : Env → Option String → Key
read_key env none = usable none
read_key env (some blob) = if is_empty_text blob then usable none else decrypted (env.decrypt blob)

abbrev pub call_for : Request → String → ProviderRow → Option String → Call
call_for rq name row api_key = record {
  provider = name;
  prompt = rq.prompt;
  system_message = rq.system_message;
  model = row.model;
  base_url = row.base_url;
  api_key = api_key;
  json_mode = rq.json_mode;
  output_schema = rq.output_schema;
}

abbrev pub call_adapter : Env → Call → Exec World RouterError ChatResponse
call_adapter env c w = (ok (env.chat (length w.calls) c), record w { calls = w.calls ++ c ∷ [] })

abbrev pub error_of : ChatResponse → String
error_of response = text_or response.error_type (default_error response.status)

-- the breaker after an answer that is an error: a 429 opens it, anything else is counted
unfoldable pub punish : Env → ℕ → ℕ → String → Bool → ChatResponse → Table → Table
punish env now user_id name trial response t =
    if str_eq (error_of response) "rate_limited" || is_429 response.status_code
    then handle_rate_limit env.jittered t user_id name response.retry_after (observed trial) now
    else handle_count_failure t user_id name (observed trial) now

abbrev pub reset_if : Bool → ℕ → String → Table → Table
reset_if trial user_id name t = if trial then (reset_circuit t user_id name half_open).1 else t

module _ (env : Env) (rq : Request) (now : ℕ) (name : String) (row : ProviderRow) where
  -- what follows `adapter.chat`
  unfoldable pub settle : Bool → ChatResponse → World → Verdict × World
  settle trial response w =
      if is_answered response.status
      then (
        replied (record {
          content = content_or_empty response.content;
          provider = name;
          model = text_or response.model row.model;
          prompt_tokens = response.prompt_tokens;
          completion_tokens = response.completion_tokens;
          latency_ms = response.latency_ms;
        }),
        record_success rq row response (on_breakers (reset_if trial rq.user_id name) w),
      )
      else if is_unavailable response.status
      then (
        lost true (failed_attempt name "unavailable" (reply_of response)),
        record_failure rq row "unavailable" response.latency_ms w,
      )
      else (
        lost true (failed_attempt name (error_of response) (reply_of response)),
        record_failure rq row (error_of response) response.latency_ms
            (on_breakers (punish env now rq.user_id name trial response) w),
      )

  unfoldable pub with_key : Bool → Key → Exec World RouterError Verdict
  with_key trial fatal = raise master_key_error
  with_key trial unreadable = do
    modify (record_failure rq row "invalid_key" 0)
    pure (lost false (failed_attempt name "invalid_key" (latency_only 0)))
  with_key trial (usable key) = do
    response ← call_adapter env (call_for rq name row key)
    run (settle trial response)

  unfoldable pub after_gate : Bool × Bool → Exec World RouterError Verdict
  after_gate (false, trial) = pure (lost false (breaker_skip name))
  after_gate (true, trial) = with_key trial (read_key env row.api_key_encrypted)

  abbrev pub gate : World → (Bool × Bool) × World
  gate w =
      let (verdict, t) = handle_breakers w.breakers rq.user_id name now in
      (verdict, record w { breakers = t })

  -- the body of the loop
  unfoldable pub attempt_provider : Exec World RouterError Verdict
  attempt_provider =
      if not (is_registered name)
      then pure (lost false (unregistered_attempt name))
      else (do verdict ← run gate; after_gate verdict)
