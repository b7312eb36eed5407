-- ===== src/Llm/Providers.antt =====
-- The provider service (backend/app/llm/service.py) and its part of
-- backend/app/db/repositories/llm_router_repository.py. `Texts` holds what the code asks of native
-- strings, and the cipher; the new row's id and its time come as arguments.
pub mod Listed
mod Tests
use auto_apply.Common.{
  ℕ, ◌+◌, String, Bool, true, false, not, ◌&&◌, ◌||◌, Option, none, some, List, [], ◌∷◌, ◌++◌, map,
  ◌==◌, str_eq, keep, find_first, is_empty_text, is_some, if◌then◌else◌, length, Text, leb,
}
use auto_apply.Common.Exec.{
  Exec, Outcome, ok, err, ◌>>=◌, ◌>>◌, pure, raise, run, gets, modify, transaction,
}
use auto_apply.Json.{Value, ℤ, obj, field, no_fields, str, int, bool}
use auto_apply.Llm.Breaker.{Table}
use auto_apply.Llm.Registry.{ProviderSpec, spec_for}
use auto_apply.Llm.Store.{
  ProviderRow, ChatResponse, Call, World, AuditRow, ResponseStatus, timeout, rollback,
  list_providers, insert_audit,
}
use auto_apply.Llm.Router.Types.{
  Env, Decryption, plaintext, decryption_error, master_key_missing, text_or, content_or_empty,
  is_answered,
}

pub record Texts : Type 0 where
  pub strip : String → String
  pub lower : String → String
  -- `none` where the master key is missing
  pub encrypt : String → Option String

pub data ServiceError : Type 0 where
  validation_error provider_duplicate provider_not_found master_key_error : ServiceError
  probe_failed : Option ℕ → String → ServiceError

pub record ProviderOut : Type 0 where
  pub id : ℕ
  pub name : String
  pub base_url : String
  pub model : String
  pub is_active : Bool
  pub priority : ℤ
  pub created_at : ℕ

abbrev pub to_out : ProviderRow → ProviderOut
to_out row = record {
  id = row.id;
  name = row.name;
  base_url = row.base_url;
  model = row.model;
  is_active = row.is_active;
  priority = row.priority;
  created_at = row.created_at;
}

unfoldable pub provider_outs : ℕ → World → List ProviderOut
provider_outs user_id w = map to_out (list_providers w user_id)

abbrev pub is_row : ℕ → ℕ → ProviderRow → Bool
is_row user_id provider_id r = r.id == provider_id && r.user_id == user_id

unfoldable pub get_provider : ℕ → ℕ → World → Option ProviderRow
get_provider user_id provider_id w = find_first (is_row user_id provider_id) w.providers

abbrev pub drop_breaker : Table → ℕ → String → Table
drop_breaker t user_id name u n = if u == user_id && str_eq n name then none else t u n

-- The row and its breaker go together.
unfoldable pub delete_row : ℕ → ℕ → String → World → World
delete_row user_id provider_id name w = record w {
  breakers = drop_breaker w.breakers user_id name;
  providers = keep (λ r. not (is_row user_id provider_id r)) w.providers;
}

-- `(value or default).strip()`
abbrev pub given_or : (String → String) → Option String → String → String
given_or strip none d = strip d
given_or strip (some s) d = strip (text_or (some s) d)

abbrev pub has_key : Option String → Bool
has_key none = false
has_key (some k) = not (is_empty_text k)

abbrev pub from : {A : Type 0} → Outcome ServiceError A → Exec World ServiceError A
from o w = (o, w)

abbrev pub known_spec : Option ProviderSpec → Outcome ServiceError ProviderSpec
known_spec none = err validation_error
known_spec (some s) = ok s

module _ (texts : Texts) where
  -- SQL's `lower` is taken for Python's.
  unfoldable pub count_providers_by_name : ℕ → String → World → ℕ
  count_providers_by_name user_id name w = length (
      keep (λ r. str_eq (texts.lower r.name) (texts.lower name) && r.user_id == user_id)
        w.providers)

  abbrev pub sealed : Option String → Outcome ServiceError (Option String)
  sealed none = ok none
  sealed (some k) =
      if is_empty_text k
      then ok none
      else elim (texts.encrypt k) [ none ↦ err master_key_error | some c ↦ ok (some c) ]

  abbrev pub filled : String → String → Outcome ServiceError (Unit {0})
  filled base_url model =
      if is_empty_text base_url || is_empty_text model then err validation_error else ok tt

  abbrev pub refuse_taken : ℕ → Exec World ServiceError (Unit {0})
  refuse_taken n = if leb 1 n then raise provider_duplicate else pure tt

  abbrev pub added_audit : ProviderRow → Bool → AuditRow
  added_audit row has_api_key = record {
    user_id = row.user_id;
    action = "llm_provider_added";
    resource_type = "provider";
    resource_id = some row.id;
    ip_address = none;
    details = obj (
        field "provider" (str row.name) (
          field "model" (str row.model) (
            field "priority" (int row.priority)
              (field "has_api_key" (bool has_api_key) no_fields))));
  }

  unfoldable pub store_provider : ProviderRow → Bool → Exec World ServiceError (Unit {0})
  store_provider row has_api_key = do
    taken ← gets (count_providers_by_name row.user_id row.name)
    refuse_taken taken
    modify (λ w. record w { providers = w.providers ++ row ∷ [] })
    modify (insert_audit (added_audit row has_api_key))

  abbrev pub row_for :
      (new_id now user_id : ℕ) (name base_url model : String) (priority : ℤ)
      → Option String
      → ProviderRow
  row_for new_id now user_id name base_url model priority key = record {
    id = new_id;
    user_id = user_id;
    name = name;
    base_url = base_url;
    model = model;
    api_key_encrypted = key;
    is_active = true;
    priority = priority;
    created_at = now;
  }

  unfoldable pub add_row : ProviderRow → Bool → Exec World ServiceError ProviderOut
  unfolding store_provider
  add_row row has_api_key = do
    transaction rollback (store_provider row has_api_key)
    pure (to_out row)

  unfoldable pub add_provider :
      (new_id now user_id : ℕ) (name : String) (base_url model api_key : Option String)
      (priority : ℤ)
      → Exec World ServiceError ProviderOut
  unfolding add_row
  add_provider new_id now user_id name base_url model api_key priority =
      let n = texts.lower (texts.strip name) in
      do
        spec ← from (known_spec (spec_for n))
        from (
            filled (given_or texts.strip base_url spec.default_base_url)
              (given_or texts.strip model spec.default_model))
        key ← from (sealed api_key)
        add_row
            (row_for new_id now user_id n (given_or texts.strip base_url spec.default_base_url)
              (given_or texts.strip model spec.default_model) priority key)
            (has_key api_key)

abbrev pub found : Option ProviderRow → Outcome ServiceError ProviderRow
found none = err provider_not_found
found (some r) = ok r

abbrev pub removed_audit : ProviderRow → AuditRow
removed_audit row = record {
  user_id = row.user_id;
  action = "llm_provider_removed";
  resource_type = "provider";
  resource_id = some row.id;
  ip_address = none;
  details = obj (field "provider" (str row.name) no_fields);
}

unfoldable pub delete_provider : (user_id provider_id : ℕ) → Exec World ServiceError (Unit {0})
delete_provider user_id provider_id = transaction rollback (do
  row ← (λ w. (found (get_provider user_id provider_id w), w))
  modify (delete_row user_id provider_id row.name)
  modify (insert_audit (removed_audit row)))

abbrev pub probe_key : Env → Option String → Outcome ServiceError (Option String)
probe_key env none = ok none
probe_key env (some blob) = if is_empty_text blob then ok none else elim (env.decrypt blob) [
  | plaintext k ↦ ok (some k)
  | decryption_error ↦ err (probe_failed none "invalid_key")
  | master_key_missing ↦ err master_key_error
]

abbrev pub probe_call : ProviderRow → Option String → Text → Call
probe_call row key prompt = record {
  provider = row.name;
  prompt = prompt;
  system_message = none;
  model = row.model;
  base_url = row.base_url;
  api_key = key;
  json_mode = false;
  output_schema = none;
}

abbrev pub probe_default : ResponseStatus → String
probe_default timeout = "timeout"
probe_default _ = "http_error"

-- the text, the latency and the model of an answer
abbrev pub probe_result : ProviderRow → ChatResponse → Outcome ServiceError (Text × ℕ × String)
probe_result row r =
    if is_answered r.status
    then ok (content_or_empty r.content, r.latency_ms, text_or r.model row.model)
    else err (probe_failed r.status_code (text_or r.error_type (probe_default r.status)))

unfoldable pub test_provider :
    Env → (user_id provider_id : ℕ) → Text → Exec World ServiceError (Text × ℕ × String)
test_provider env user_id provider_id prompt = do
  row ← (λ w. (found (get_provider user_id provider_id w), w))
  spec ← from (known_spec (spec_for row.name))
  key ← from (probe_key env row.api_key_encrypted)
  r ← run (λ w. (
    env.chat (length w.calls) (probe_call row key prompt),
    record w { calls = w.calls ++ probe_call row key prompt ∷ [] },
  ))
  from (probe_result row r)
