-- ===== src/Jd/Budget.antt =====
-- The budget of an extraction and the trimming of its input
-- (backend/app/core_engine/jd_extractor.py). A tokenizer, where one is installed, is a parameter.
use auto_apply.Common.{
  ℕ, ◌+◌, ◌*◌, ◌/◌, max, Bool, Option, none, some, List, [], ◌∷◌, Text, leb, take, length, ltb,
  String, if◌then◌else◌,
}
use auto_apply.Common.Exec.{Exec, ◌>>◌, pure, raise, modify}

-- the errors of core_engine/errors.py that an extraction raises, and those of other code that pass
-- through it
pub data JdError : Type 0 where
  budget_exceeded fetch_failed job_not_found not_a_posting validation_failed : JdError
  -- an exception that no handler of the cascade names
  uncaught : String → JdError

abbrev pub max_calls : ℕ
max_calls = 5

abbrev pub output_headroom_tokens : ℕ
output_headroom_tokens = 2048

abbrev pub section_max_input_tokens : ℕ
section_max_input_tokens = 12000

abbrev pub default_token_budget : ℕ
default_token_budget = 45000

pub record BudgetTracker : Type 0 where
  pub cap : ℕ
  pub token_budget : ℕ
  pub headroom : ℕ
  pub used_tokens : ℕ
  pub call_count : ℕ

-- `int(raw) if raw else default`; `none` where the variable is not set or `int` raises. A negative
-- number leaves as little to spend as 0 does, which stands for it.
abbrev pub token_budget_env : Option ℕ → ℕ
token_budget_env none = default_token_budget
token_budget_env (some n) = n

abbrev pub new_budget : Option ℕ → BudgetTracker
new_budget raw = record {
  cap = max_calls;
  token_budget = token_budget_env raw;
  headroom = output_headroom_tokens;
  used_tokens = 0;
  call_count = 0;
}

abbrev pub fits : ℕ → BudgetTracker → Bool
fits planned_input b = leb (b.used_tokens + planned_input + b.headroom) b.token_budget

unfoldable pub guard_plan : ℕ → Exec BudgetTracker JdError Unit
guard_plan planned_input b = (if fits planned_input b then pure tt else raise budget_exceeded) b

unfoldable pub consume_call : Exec BudgetTracker JdError Unit
consume_call b =
    if leb b.cap b.call_count
    then raise budget_exceeded b
    else modify (λ t. record t { call_count = t.call_count + 1 }) b

-- The tokens stay counted when it raises.
abbrev pub over_budget : BudgetTracker → Bool
over_budget b = ltb b.token_budget (b.used_tokens + b.headroom)

abbrev pub raise_if_over : Exec BudgetTracker JdError Unit
raise_if_over b = (if over_budget b then raise budget_exceeded else pure tt) b

unfoldable pub accrue : ℕ → ℕ → Exec BudgetTracker JdError Unit
accrue prompt_tokens completion_tokens =
    modify (λ t. record t { used_tokens = t.used_tokens + (prompt_tokens + completion_tokens) })
    >> raise_if_over

-- `max(1, ceil(len(text) / 5.0))`
abbrev pub estimate_tokens : Text → ℕ
estimate_tokens text = max 1 ((length text + 4) / 5)

pub record Tokenizer : Type 0 where
  pub encode : Text → List ℕ
  pub decode : List ℕ → Text

pub data TrimWarning : Type 0 where
  trimmed_by_tokenizer : ℕ → ℕ → TrimWarning
  trimmed_by_characters : TrimWarning

pub record TrimResult : Type 0 where
  pub text : Text
  pub char_count : ℕ
  pub estimated_tokens : ℕ
  pub warning : Option TrimWarning

abbrev pub trim_by_tokens : Tokenizer → Text → ℕ → TrimResult
trim_by_tokens tok pretrimmed max_tokens =
    let tokens = tok.encode pretrimmed in
    let decoded = tok.decode (take max_tokens tokens) in
    if leb (length tokens) max_tokens
    then record {
      text = pretrimmed;
      char_count = length pretrimmed;
      estimated_tokens = length tokens;
      warning = none;
    }
    else record {
      text = decoded;
      char_count = length decoded;
      estimated_tokens = max_tokens;
      warning = some (trimmed_by_tokenizer (length tokens) max_tokens);
    }

abbrev pub trim_by_chars : Text → ℕ → Text → TrimResult
trim_by_chars text fast_cap_chars pretrimmed = record {
  text = pretrimmed;
  char_count = length pretrimmed;
  estimated_tokens = estimate_tokens pretrimmed;
  warning = if ltb fast_cap_chars (length text) then some trimmed_by_characters else none;
}

unfoldable pub trim_to_token_limit : Option Tokenizer → Text → ℕ → TrimResult
trim_to_token_limit tokenizer [] max_tokens = record {
  text = [];
  char_count = 0;
  estimated_tokens = 0;
  warning = none;
}
trim_to_token_limit tokenizer (c ∷ text) max_tokens =
    let fast_cap_chars = max_tokens * 5 in
    let pretrimmed = take fast_cap_chars (c ∷ text) in
    elim tokenizer [
      | none ↦ trim_by_chars (c ∷ text) fast_cap_chars pretrimmed
      | some tok ↦ trim_by_tokens tok pretrimmed max_tokens
    ]
