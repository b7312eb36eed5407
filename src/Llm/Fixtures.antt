-- ===== src/Llm/Fixtures.antt =====
-- Sample rows, providers and requests for the tests.
use auto_apply.Common.{
  ℕ, zero, suc, String, true, false, Option, none, some, [], ◌∷◌, Text, codes, if◌then◌else◌, ◌==◌,
  ◌&&◌, str_eq,
}
use auto_apply.Json.{Value, pos, obj, no_fields, str}
use auto_apply.Llm.Breaker.{opened, Breaker, Table}
use auto_apply.Llm.Store.{ProviderRow, ChatResponse, Call, World, answered, timeout}
use auto_apply.Llm.Router.Types.{Env, Decryption, plaintext, Request}
use auto_apply.Llm.Structured.{Shape}

abbrev pub empty_table : Table
empty_table user_id provider_name = none

abbrev pub opened_row : Breaker
opened_row = record {
  state = opened;
  failure_count = 3;
  last_failure_at = some 5;
  cooldown_expires_at = some 100;
}

-- user 7's breaker for "groq" is open until 100
abbrev pub opened_table : Table
opened_table user_id name = if user_id == 7 && str_eq name "groq" then some opened_row else none

abbrev pub provider : ℕ → String → ℕ → ProviderRow
provider id name priority = record {
  id = id;
  user_id = 7;
  name = name;
  base_url = "http://localhost";
  model = "m";
  api_key_encrypted = some "sealed";
  is_active = true;
  priority = pos priority;
  created_at = id;
}

-- "groq" is first by priority, then "gemini"
abbrev pub world : World
world = record {
  providers = provider 1 "gemini" 2 ∷ provider 2 "groq" 1 ∷ [];
  settings = [];
  breakers = empty_table;
  usage = [];
  audits = [];
  errors = [];
  checkpoints = [];
  calls = [];
}

abbrev pub request : Request
request = record {
  user_id = 7;
  prompt = codes "hello";
  system_message = none;
  provider_chain = none;
  job_id = some 3;
  step = some "scoring";
  json_mode = false;
  output_schema = none;
}

abbrev pub answer_with : Text → ChatResponse
answer_with text = record {
  status = answered;
  content = some text;
  model = none;
  prompt_tokens = 1;
  completion_tokens = 2;
  latency_ms = 3;
  status_code = some 200;
  retry_after = none;
  error_type = none;
}

abbrev pub time_out : ChatResponse
time_out = record {
  status = timeout;
  content = none;
  model = none;
  prompt_tokens = 0;
  completion_tokens = 0;
  latency_ms = 9;
  status_code = none;
  retry_after = none;
  error_type = none;
}

abbrev pub open_key : String → Decryption
open_key cipher = plaintext "key"

abbrev pub no_jitter : String → ℕ → ℕ
no_jitter name x = x

-- the first call times out, the next ones are answered
abbrev pub second_answers : ℕ → Call → ChatResponse
second_answers zero call = time_out
second_answers (suc n) call = answer_with (codes "hi")

abbrev pub flaky : Env
flaky = record { chat = second_answers; decrypt = open_key; jittered = no_jitter }

abbrev pub dead : Env
dead = record { chat = λ n call. time_out; decrypt = open_key; jittered = no_jitter }

-- a parser that knows one document
abbrev pub loads_yes : Text → Option Value
loads_yes (c ∷ []) = if c == b'y' then some (str "yes") else none
loads_yes _ = none

abbrev pub any_shape : Shape
any_shape = record { loads = loads_yes; schema = obj no_fields; validate = λ v. some v }

-- the first answer is not the document, the next ones are
abbrev pub second_parses : ℕ → Call → ChatResponse
second_parses zero call = answer_with (codes "oops")
second_parses (suc n) call = answer_with (codes "y")

abbrev pub learner : Env
learner = record { chat = second_parses; decrypt = open_key; jittered = no_jitter }
