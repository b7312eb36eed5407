-- ===== src/Llm/Registry.antt =====
-- The provider registry (backend/app/llm/registry.py). The adapter classes are told apart by their
-- protocol only.
use auto_apply.Common.{
  String, Bool, Option, none, some, List, [], ◌∷◌, map, is_some, str_eq, if◌then◌else◌,
}

pub data AdapterKind : Type 0 where
  gemini_adapter ollama_adapter open_ai_compatible_adapter : AdapterKind

pub record ProviderSpec : Type 0 where
  pub adapter : AdapterKind
  pub default_base_url : String
  pub default_model : String

abbrev pub registry : List (String × ProviderSpec)
registry =
    (
      "gemini",
      record {
        adapter = gemini_adapter;
        default_base_url = "https://generativelanguage.googleapis.com";
        default_model = "gemini-3.6-flash";
      },
    )
    ∷ (
      "ollama",
      record {
        adapter = ollama_adapter;
        default_base_url = "http://localhost:11434";
        default_model = "llama3";
      },
    )
    ∷ (
      "groq",
      record {
        adapter = open_ai_compatible_adapter;
        default_base_url = "https://api.groq.com/openai/v1";
        default_model = "openai/gpt-oss-20b";
      },
    )
    ∷ (
      "openrouter",
      record {
        adapter = open_ai_compatible_adapter;
        default_base_url = "https://openrouter.ai/api/v1";
        default_model = "openai/gpt-4o-mini";
      },
    )
    ∷ []

abbrev pub look_up {ℓ} : {A : Type ℓ} → String → List (String × A) → Option A
look_up k [] = none
look_up k ((j, v) ∷ l) = if str_eq j k then some v else look_up k l

unfoldable pub spec_for : String → Option ProviderSpec
spec_for name = look_up name registry

unfoldable pub is_registered : String → Bool
unfolding spec_for
is_registered name = is_some (spec_for name)

abbrev pub registered_names : List String
registered_names = map (λ e. e.0) registry
