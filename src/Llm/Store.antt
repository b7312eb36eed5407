-- ===== src/Llm/Store.antt =====
-- The rows that the router reads and writes, and the world that it runs in: its tables and the log
-- of the calls that reached a provider. Ids are numbers, times and waits are microseconds
-- (backend/app/db/repositories/llm_router_repository.py, observability_repository.py and
-- checkpointing_repository.py; backend/app/llm/adapters/base.py).
use auto_apply.Common.{
  ℕ, String, Bool, true, false, ◌&&◌, Option, List, [], ◌∷◌, ◌++◌, leb, ◌==◌, keep, Text,
  if◌then◌else◌,
}
use auto_apply.Common.Sort.{sort_by}
use auto_apply.Json.{Value, ℤ, pos, neg}
use auto_apply.Llm.Breaker.{Table}

pub record ProviderRow : Type 0 where
  pub id : ℕ
  pub user_id : ℕ
  pub name : String
  pub base_url : String
  pub model : String
  pub api_key_encrypted : Option String
  pub is_active : Bool
  pub priority : ℤ
  pub created_at : ℕ

pub record UsageRow : Type 0 where
  pub user_id : ℕ
  pub provider_id : ℕ
  pub job_id : Option ℕ
  pub prompt_tokens : ℕ
  pub completion_tokens : ℕ
  pub latency_ms : ℕ
  pub success : Bool
  pub error_type : Option String

pub record AuditRow : Type 0 where
  pub user_id : ℕ
  pub action : String
  pub resource_type : String
  pub resource_id : Option ℕ
  pub details : Value
  pub ip_address : Option String

pub record ErrorRow : Type 0 where
  pub user_id : ℕ
  pub component : String
  pub error_type : String
  pub severity : String
  pub message : String
  pub job_id : Option ℕ
  pub context : Value
  pub next_action : Option String

pub record CheckpointRow : Type 0 where
  pub user_id : ℕ
  pub job_id : ℕ
  pub step : String
  pub pipeline_state : Value

pub record SettingRow : Type 0 where
  pub user_id : ℕ
  pub key : String
  pub value : Value

pub data ResponseStatus : Type 0 where
  answered http_error unavailable timeout : ResponseStatus

-- `ChatResponse`; `answered` is the status "ok"
pub record ChatResponse : Type 0 where
  pub status : ResponseStatus
  pub content : Option Text
  pub model : Option String
  pub prompt_tokens : ℕ
  pub completion_tokens : ℕ
  pub latency_ms : ℕ
  pub status_code : Option ℕ
  pub retry_after : Option ℕ
  pub error_type : Option String

-- the arguments of `adapter.chat`, with the name that the adapter was built for
pub record Call : Type 0 where
  pub provider : String
  pub prompt : Text
  pub system_message : Option Text
  pub model : String
  pub base_url : String
  pub api_key : Option String
  pub json_mode : Bool
  pub output_schema : Option Value

pub record World : Type 0 where
  pub providers : List ProviderRow
  pub settings : List SettingRow
  pub breakers : Table
  pub usage : List UsageRow
  pub audits : List AuditRow
  pub errors : List ErrorRow
  pub checkpoints : List CheckpointRow
  pub calls : List Call

-- A rollback restores every table; a call that was made stays made.
abbrev pub rollback : World → World → World
rollback before after = record before { calls = after.calls }

abbrev pub int_leb : ℤ → ℤ → Bool
int_leb (pos a) (pos b) = leb a b
int_leb (pos a) (neg b) = false
int_leb (neg a) (pos b) = true
int_leb (neg a) (neg b) = leb b a

-- `(a, x) <= (b, y)`
abbrev pub pair_leb : ℤ → ℕ → ℤ → ℕ → Bool
pair_leb a x b y = if int_leb a b then (if int_leb b a then leb x y else true) else false

-- `WHERE is_active ORDER BY priority, created_at`, under the row policy of the user
unfoldable pub list_active_providers : World → ℕ → List ProviderRow
list_active_providers w user_id =
    sort_by (λ a b. pair_leb a.priority a.created_at b.priority b.created_at)
      (keep (λ r. r.user_id == user_id && r.is_active) w.providers)

unfoldable pub list_providers : World → ℕ → List ProviderRow
list_providers w user_id =
    sort_by (λ a b. pair_leb a.priority a.created_at b.priority b.created_at)
      (keep (λ r. r.user_id == user_id) w.providers)

abbrev pub rows_of : ℕ → List SettingRow → List (String × Value)
rows_of user_id [] = []
rows_of user_id (r ∷ l) =
    let rest = rows_of user_id l in if r.user_id == user_id then (r.key, r.value) ∷ rest else rest

abbrev pub get_settings : World → ℕ → List (String × Value)
get_settings w user_id = rows_of user_id w.settings

abbrev pub insert_usage : UsageRow → World → World
insert_usage row w = record w { usage = w.usage ++ row ∷ [] }

abbrev pub insert_audit : AuditRow → World → World
insert_audit row w = record w { audits = w.audits ++ row ∷ [] }

abbrev pub insert_error : ErrorRow → World → World
insert_error row w = record w { errors = w.errors ++ row ∷ [] }

abbrev pub insert_checkpoint : CheckpointRow → World → World
insert_checkpoint row w = record w { checkpoints = w.checkpoints ++ row ∷ [] }
