-- ===== src/Llm/Router/Types.antt =====
-- The data of the router (backend/app/llm/router.py). Outside code enters by `Env`: the provider
-- behind each adapter, which may answer differently at each call, the cipher, and the jitter.
use auto_apply.Common.{
  ℕ, String, Bool, true, false, Option, none, some, List, [], ◌∷◌, ◌++◌, ◌==◌, Text, if◌then◌else◌,
  is_empty_text,
}
use auto_apply.Json.{Value}
use auto_apply.Llm.Store.{ResponseStatus, answered, unavailable, timeout, ChatResponse, Call}

-- what `decrypt_provider_key` returns or raises
pub data Decryption : Type 0 where
  plaintext : String → Decryption
  decryption_error master_key_missing : Decryption

pub record Env : Type 0 where
  -- the answer to a call, by the number of calls that were made before it
  pub chat : ℕ → Call → ChatResponse
  pub decrypt : String → Decryption
  pub jittered : String → ℕ → ℕ

pub record Request : Type 0 where
  pub user_id : ℕ
  pub prompt : Text
  pub system_message : Option Text
  pub provider_chain : Option (List String)
  pub job_id : Option ℕ
  pub step : Option String
  pub json_mode : Bool
  pub output_schema : Option Value

pub record LlmResponse : Type 0 where
  pub content : Text
  pub provider : String
  pub model : String
  pub prompt_tokens : ℕ
  pub completion_tokens : ℕ
  pub latency_ms : ℕ

-- What an entry of `attempts` notes of the answer: nothing where the provider was skipped, the latency
-- alone where its key could not be read, and the status code, the wait and the latency of an answer.
pub data ReplyNote : Type 0 where
  no_reply : ReplyNote
  latency_only : ℕ → ReplyNote
  noted : (status_code retry_after : Option ℕ) → (latency_ms : ℕ) → ReplyNote

-- An entry of `attempts`; `repairs` holds the repair prompts used and allowed, where
-- `generate_structured` notes them.
pub record Attempt : Type 0 where
  pub provider : String
  pub status : String
  pub error_type : String
  pub called : Bool
  pub skipped_by_breaker : Bool
  pub reply : ReplyNote
  pub repairs : Option (ℕ × ℕ)

pub data RouterError : Type 0 where
  master_key_error : RouterError
  providers_exhausted : String → List Attempt → List String → RouterError

-- `response.error_type or …`
abbrev pub text_or : Option String → String → String
text_or none d = d
text_or (some s) d = if is_empty_text s then d else s

abbrev pub content_or_empty : Option Text → Text
content_or_empty none = []
content_or_empty (some t) = t

abbrev pub is_answered : ResponseStatus → Bool
is_answered answered = true
is_answered _ = false

abbrev pub is_unavailable : ResponseStatus → Bool
is_unavailable unavailable = true
is_unavailable _ = false

abbrev pub default_error : ResponseStatus → String
default_error timeout = "timeout"
default_error _ = "server_error"

abbrev pub is_429 : Option ℕ → Bool
is_429 none = false
is_429 (some c) = c == 429

-- what the loop has gathered: `consumed` and `attempts`
pub record Progress : Type 0 where
  pub consumed : List String
  pub attempts : List Attempt

pub data LoopResult : Type 0 where
  returned : LlmResponse → LoopResult
  exhausted : Progress → LoopResult

abbrev pub note : String → Bool → Attempt → Progress → Progress
note name called a p = record {
  consumed = if called then p.consumed ++ name ∷ [] else p.consumed;
  attempts = p.attempts ++ a ∷ [];
}
