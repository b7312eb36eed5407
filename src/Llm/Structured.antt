-- ===== src/Llm/Structured.antt =====
-- `generate_structured` (backend/app/llm/router.py): the router with a typed result. An answer that
-- does not parse or does not validate is a failed attempt, with at most `max_repairs` repair
-- prompts to the same provider. `validate` is the model's `model_validate`, and a validated
-- instance is the value that it returns.
pub mod Bounds
pub mod Exchange
pub mod Health
mod Tests
use auto_apply.Common.{
  ℕ, zero, suc, ◌+◌, String, Bool, true, false, not, Option, none, some, [], ◌∷◌, ◌++◌, length,
  Text, codes, if◌then◌else◌,
}
use auto_apply.Common.Exec.{Exec, ◌>>=◌, ◌>>◌, pure, raise, run, modify, transaction}
use auto_apply.Json.{Value}
use auto_apply.Llm.JsonText.{parse_llm_json}
use auto_apply.Llm.Registry.{is_registered}
use auto_apply.Llm.Store.{ProviderRow, ChatResponse, Call, World, rollback}
use auto_apply.Llm.Router.Types.{
  Env, Request, Attempt, RouterError, master_key_error, providers_exhausted, Progress, note,
  is_answered, is_unavailable, content_or_empty, latency_only,
}
use auto_apply.Llm.Router.Resolve.{Chain, resolve_chain}
use auto_apply.Llm.Router.Attempt.{
  Key, usable, unreadable, fatal, read_key, unregistered_attempt, breaker_skip, failed_attempt,
  reply_of, record_failure, record_success, on_breakers, punish, reset_if, error_of, gate,
}
use auto_apply.Llm.Router.Exhaust.{exhaust, error_message}
use auto_apply.Llm.Router.Route.{nothing_yet}

pub record Shape : Type 0 where
  pub loads : Text → Option Value
  pub schema : Value
  pub validate : Value → Option Value

pub data Reply : Type 0 where
  valid : Value → Reply
  gave_up : Bool → Attempt → Reply

abbrev pub repair_note : Text
repair_note =
    codes
      "\n\nYour previous output was not valid JSON. Return ONLY valid JSON matching the requested schema, with no prose and no code fences."

-- what the answer's text comes to: the instance, or the kind of the failure
pub data Reading : Type 0 where
  instance_of : Value → Reading
  misshapen : String → Reading

abbrev pub checked : Option Value → Reading
checked none = misshapen "schema_mismatch"
checked (some v) = instance_of v

abbrev pub read_parsed : Shape → Option Value → Reading
read_parsed shape none = misshapen "invalid_json"
read_parsed shape (some doc) = checked (shape.validate doc)

unfoldable pub read_answer : Shape → ChatResponse → Reading
read_answer shape r = read_parsed shape (parse_llm_json shape.loads (content_or_empty r.content))

abbrev pub on_reading : Reading → (Value → Reply × World) → (String → Reply × World) → Reply × World
on_reading (instance_of v) good bad = good v
on_reading (misshapen kind) good bad = bad kind

-- the entry for an answer of the wrong shape
abbrev pub shape_attempt : String → String → ChatResponse → ℕ → ℕ → Attempt
shape_attempt name error_type r used most = record (failed_attempt name error_type (reply_of r)) {
  repairs = some (used, most);
}

module _ (env : Env) (shape : Shape) (rq : Request) (now max_repairs : ℕ) (name : String)
    (row : ProviderRow) where
  abbrev pub structured_call : Option String → Text → Call
  structured_call key prompt = record {
    provider = name;
    prompt = prompt;
    system_message = rq.system_message;
    model = row.model;
    base_url = row.base_url;
    api_key = key;
    json_mode = true;
    output_schema = some shape.schema;
  }

  -- the end of an exchange whose answer is an error
  unfoldable pub refuse : Bool → ChatResponse → World → Reply × World
  refuse trial r w =
      if is_unavailable r.status
      then (
        gave_up true (failed_attempt name "unavailable" (reply_of r)),
        record_failure rq row "unavailable" r.latency_ms w,
      )
      else (
        gave_up true (failed_attempt name (error_of r) (reply_of r)),
        record_failure rq row (error_of r) r.latency_ms
            (on_breakers (punish env now rq.user_id name trial r) w),
      )

  unfoldable pub accept : Bool → ChatResponse → Value → World → Reply × World
  accept trial r v w =
      (valid v, record_success rq row r (on_breakers (reset_if trial rq.user_id name) w))

  -- what follows an answer: the instance, `bad` for a wrong shape, or an error
  abbrev pub after_call : Bool → ChatResponse → World → (String → Reply × World) → Reply × World
  after_call trial r w bad =
      if is_answered r.status
      then on_reading (read_answer shape r) (λ v. accept trial r v w) bad
      else refuse trial r w

  -- The `while True`, by the repairs that are left; `used` counts those made.
  unfoldable pub converse : Bool → Option String → (left used : ℕ) → Text → World → Reply × World
  converse trial key zero used prompt w =
      let r = env.chat (length w.calls) (structured_call key prompt) in
      let w' = record w { calls = w.calls ++ structured_call key prompt ∷ [] } in
      after_call trial r w' (λ kind. (
        gave_up true (shape_attempt name kind r used max_repairs),
        record_failure rq row kind r.latency_ms w',
      ))
  converse trial key (suc left) used prompt w =
      let r = env.chat (length w.calls) (structured_call key prompt) in
      let w' = record w { calls = w.calls ++ structured_call key prompt ∷ [] } in
      after_call trial r w' (λ kind.
        converse trial key left (used + 1) (rq.prompt ++ repair_note)
          (record_failure rq row kind r.latency_ms w'))

  unfoldable pub structured_with_key : Bool → Key → Exec World RouterError Reply
  structured_with_key trial fatal = raise master_key_error
  structured_with_key trial unreadable = do
    modify (record_failure rq row "invalid_key" 0)
    pure (gave_up false (failed_attempt name "invalid_key" (latency_only 0)))
  structured_with_key trial (usable key) = run (converse trial key max_repairs 0 rq.prompt)

  unfoldable pub structured_after_gate : Bool × Bool → Exec World RouterError Reply
  structured_after_gate (false, trial) = pure (gave_up false (breaker_skip name))
  structured_after_gate (true, trial) =
      structured_with_key trial (read_key env row.api_key_encrypted)

  unfoldable pub structured_turn : Exec World RouterError Reply
  structured_turn =
      if not (is_registered name)
      then pure (gave_up false (unregistered_attempt name))
      else (do verdict ← run (gate env rq now name row); structured_after_gate verdict)

pub data StructuredResult : Type 0 where
  produced : Value → StructuredResult
  used_up : Progress → StructuredResult

module _ (env : Env) (shape : Shape) (rq : Request) (now max_repairs : ℕ) where
  unfoldable pub structured_chain : Chain → Progress → Exec World RouterError StructuredResult
  structured_chain [] p = pure (used_up p)
  structured_chain ((name, row) ∷ rest) p = do
    reply ← structured_turn env shape rq now max_repairs name row
    elim reply [
      | valid v ↦ pure (produced v)
      | gave_up called a ↦ structured_chain rest (note name called a p)
    ]

  abbrev pub close_structured : StructuredResult → Exec World RouterError StructuredResult
  close_structured (produced v) = pure (produced v)
  close_structured (used_up p) = do modify (exhaust rq p); pure (used_up p)

  abbrev pub value_or_raise : StructuredResult → Exec World RouterError Value
  value_or_raise (produced v) = pure v
  value_or_raise (used_up p) =
      raise (providers_exhausted (error_message p.consumed) p.attempts p.consumed)

  unfoldable pub structured_transaction : Exec World RouterError StructuredResult
  structured_transaction w =
      (do outcome ← structured_chain (resolve_chain w rq) nothing_yet; close_structured outcome) w

  unfoldable pub generate_structured : Exec World RouterError Value
  unfolding structured_transaction
  generate_structured = do
    outcome ← transaction rollback structured_transaction
    value_or_raise outcome
