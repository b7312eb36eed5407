-- ===== src/Llm/Providers/Tests.antt =====
-- Runs of the provider service on sample rows.
use auto_apply.Common.{◌≡◌, refl, some, none}
use auto_apply.Json.{pos}
use auto_apply.Llm.Providers.{Texts, get_provider, delete_provider, add_provider}
use auto_apply.Llm.Providers.Listed.{
  IsDistinct, delete_provider-get_provider, add_provider-IsDistinct,
}
use auto_apply.Llm.Fixtures.{world, provider}

abbrev plain : Texts
plain = record { strip = λ s. s; lower = λ s. s; encrypt = λ s. some s }

delete_provider-get_provider_example :
    (get_provider 7 1 (delete_provider 7 1 world).1 ≡ none)
    × ((delete_provider 7 1 world).1.breakers 7 "gemini" ≡ none)
unfolding get_provider
delete_provider-get_provider_example =
    delete_provider-get_provider 7 1 world (provider 1 "gemini" 2) refl

add_provider-IsDistinct_example :
    IsDistinct plain (add_provider plain 9 50 7 "ollama" none none none (pos 3) world).1.providers
add_provider-IsDistinct_example =
    add_provider-IsDistinct plain 9 50 7 "ollama" none none none (pos 3) world
      ((refl, tt), (tt, tt))
