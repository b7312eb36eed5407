-- ===== src/Jd/Injection.antt =====
-- The prompt-injection scan and the refusal scan
-- (backend/app/core_engine/jd_extractor.py). `lower` is `str.lower`.
pub mod Scan
use auto_apply.Common.{
  ℕ, zero, suc, ◌-◌, Bool, false, ◌||◌, List, [], ◌∷◌, Text, codes, any_of, take, drop, length,
}
use auto_apply.Common.Search.{contains}

abbrev pub injection_overlap : ℕ
injection_overlap = 2048

abbrev pub injection_chunk : ℕ
injection_chunk = 32000

abbrev pub injection_patterns : List Text
injection_patterns =
    codes "ignore all previous instructions"
    ∷ codes "ignore previous instructions"
    ∷ codes "system prompt"
    ∷ codes "you are now"
    ∷ codes "disregard instructions"
    ∷ codes "do not follow the instructions"
    ∷ codes "override instructions"
    ∷ []

abbrev pub refusal_patterns : List Text
refusal_patterns =
    codes "i am not a job posting"
    ∷ codes "i cannot fulfill this request"
    ∷ codes "i am unable to"
    ∷ codes "this is not a job posting"
    ∷ codes "as an ai"
    ∷ codes "as a language model"
    ∷ []

-- `any(pattern in text for pattern in patterns)`
abbrev pub mentions_any : List Text → Text → Bool
mentions_any patterns text = any_of (λ p. contains p text) patterns

-- The loop over `range(0, len(scan_text), step)`: what is left of the text from `start` on, and fuel
-- for the steps.
unfoldable pub scan_chunks : List Text → ℕ → ℕ → ℕ → Text → Bool
scan_chunks patterns step chunk zero rest = false
scan_chunks patterns step chunk (suc fuel) [] = false
scan_chunks patterns step chunk (suc fuel) (c ∷ rest) =
    mentions_any patterns (take chunk (c ∷ rest))
    || scan_chunks patterns step chunk fuel (drop step (c ∷ rest))

-- Every step takes at least one character, so the length of the text is fuel enough.
abbrev pub scan_whole : Text → Bool
unfolding scan_chunks
scan_whole scan_text =
    scan_chunks injection_patterns (injection_chunk - injection_overlap) injection_chunk
      (length scan_text) scan_text

module _ (lower : Text → Text) where
  unfoldable pub check_for_prompt_injection : Text → Bool
  check_for_prompt_injection [] = false
  check_for_prompt_injection (c ∷ text) = scan_whole (lower (c ∷ text))

  unfoldable pub is_refusal : Text → Bool
  is_refusal content = mentions_any refusal_patterns (lower content)
