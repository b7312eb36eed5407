-- ===== src/Jd/Env.antt =====
-- What the extraction of a posting takes from outside of its own code: pages, prompts, pydantic,
-- HTML parsing and the process environment; and the state that its doors share
-- (backend/app/core_engine/jd_extractor.py).
use auto_apply.Common.{ℕ, String, Bool, not, ◌||◌, Option, List, ◌++◌, Text, text_eq, codes}
use auto_apply.Common.Exec.{Exec, Outcome, ok, err}
use auto_apply.Json.{Value, Fields}
use auto_apply.Llm.Store.{World}
use auto_apply.Llm.Router.Types.{Env, RouterError}
use auto_apply.Jd.Classify.{ParsedUrl, classify_url}
use auto_apply.Jd.Budget.{BudgetTracker, Tokenizer, JdError}
use auto_apply.Jd.Schema.{DoorRoute}

-- `FetchedResult`; bytes are numbers
pub record FetchedResult : Type 0 where
  pub url : String
  pub status_code : ℕ
  pub body : List ℕ

pub data FetchAnswer : Type 0 where
  fetched : FetchedResult → FetchAnswer
  fetch_raised : JdError → FetchAnswer

pub data RenderAnswer : Type 0 where
  rendered : FetchedResult → RenderAnswer
  not_rendered render_raised : RenderAnswer

-- `DoorResult` of the first door, its `FetchFailedError`, or another exception
pub record DoorResult : Type 0 where
  pub structured : Fields
  pub html : Option Text
  pub engine : String

pub data Door1Answer : Type 0 where
  door1_result : DoorResult → Door1Answer
  door1_failed : Door1Answer
  door1_raised : JdError → Door1Answer

-- The pages answer by the number of requests that were sent before. `extract_json_ld` is `none`
-- where it raises, and `section_model` gives the dump of the validated section or the error's text.
pub record JdEnv : Type 0 where
  pub router : Env
  -- the time at which a request is routed, by the number of provider calls before it
  pub router_time : ℕ → ℕ
  pub describe : RouterError → String
  pub urlparse : String → ParsedUrl
  pub lower_name : String → String
  pub door1 : ℕ → DoorRoute → Door1Answer
  pub fetch : ℕ → String → FetchAnswer
  pub render : ℕ → String → RenderAnswer
  pub decode : List ℕ → Text
  pub encode : Text → List ℕ
  pub sha256 : List ℕ → String
  pub lower : Text → Text
  pub loads : Text → Option Value
  pub display : Value → Text
  pub extract_json_ld : Text → Option Fields
  pub strip_to_text : Text → Text
  pub section_system : String → Text
  pub section_prompt : String → Text → Text
  pub door5_system : Text
  pub door5_prompt : Text → List String → Text
  pub section_schema : String → Value
  pub section_model : String → Fields → Outcome String Fields
  -- f"http_{status_code}"
  pub http_reason : ℕ → String
  pub validates : Fields → Bool
  pub tokenizer : Option Tokenizer
  pub token_budget : Option ℕ
  -- JD_CACHE_ENABLED in lower case, "1" where it is not set
  pub cache_flag : Text

-- the route of a url
abbrev pub route_of : JdEnv → String → DoorRoute
route_of env url = classify_url env.lower_name env.urlparse url

-- `_cache_enabled`
abbrev pub cache_enabled : JdEnv → Bool
cache_enabled env = not (
    text_eq env.cache_flag (codes "0")
    || text_eq env.cache_flag (codes "false")
    || text_eq env.cache_flag (codes "no"))

unfoldable pub hash_content : JdEnv → String → List ℕ → String
hash_content env url body = env.sha256 (env.encode (codes url) ++ body)

-- the state of the two doors that ask a model
pub record Run : Type 0 where
  pub llm : World
  pub budget : BudgetTracker
  pub accumulator : Fields

module _ {ℓ} {S E A : Type ℓ} where
  -- `try … except Exception`: what was changed stays changed
  abbrev pub handle : (E → Exec S E A) → Outcome E A × S → Outcome E A × S
  handle f (ok a, s) = (ok a, s)
  handle f (err e, s) = f e s

-- a method of one part of the state
abbrev pub zoom {ℓ} : {S T E A : Type ℓ} → (S → T) → (T → S → S) → Exec T E A → Exec S E A
zoom part put m s = let (r, t) = m (part s) in (r, put t s)

module _ {A : Type 0} where
  abbrev pub on_budget : Exec BudgetTracker JdError A → Exec Run JdError A
  on_budget = zoom (λ r. r.budget) (λ b r. record r { budget = b })
