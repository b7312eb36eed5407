-- ===== src/Llm/JsonText/Laws.antt =====
-- What `parse_llm_json` returns.
use auto_apply.Common.{Text, ◌≡◌, ◌≢◌, refl, Option, none, some, [], ◌∷◌, arith, All}
use auto_apply.Json.{text_of, Value, null, bool, int, float, str, arr, obj}
use auto_apply.Llm.JsonText.{
  strip, split_at, fence, extract_fenced, not_null, unwrap_wrapper, parse_llm_json, load_or_repair,
  load_unfenced, load_braces, parsed_or,
}

unwrap_wrapper-ne-null : (v : Value) → v ≢ null → unwrap_wrapper v ≢ null
unfolding unwrap_wrapper
unwrap_wrapper-ne-null v h = ground arith

not_null-ne-null : (o : Option Value) (v : Value) → not_null o ≡ some v → v ≢ null
not_null-ne-null o v h = ground arith

-- no `null` among the results
abbrev NotNull : Option Value → Type 0
NotNull none = Unit
NotNull (some v) = v ≢ null

NotNull-parsed_or : (o rest : Option Value) → NotNull rest → NotNull (parsed_or (not_null o) rest)
NotNull-parsed_or none rest h = h
NotNull-parsed_or (some null) rest h = h
NotNull-parsed_or (some (bool b)) rest h = unwrap_wrapper-ne-null (bool b) cc
NotNull-parsed_or (some (int i)) rest h = unwrap_wrapper-ne-null (int i) cc
NotNull-parsed_or (some (float f)) rest h = unwrap_wrapper-ne-null (float f) cc
NotNull-parsed_or (some (str s)) rest h = unwrap_wrapper-ne-null (str s) cc
NotNull-parsed_or (some (text_of s)) rest h = unwrap_wrapper-ne-null (text_of s) cc
NotNull-parsed_or (some (arr vs)) rest h = unwrap_wrapper-ne-null (arr vs) cc
NotNull-parsed_or (some (obj fs)) rest h = unwrap_wrapper-ne-null (obj fs) cc

split_at-fence_free : (s : Text) → All (λ c. c ≢ b'`') s → split_at fence s ≡ none
unfolding split_at
split_at-fence_free [] h = refl
split_at-fence_free (c ∷ s) h = ground (arith, split_at-fence_free s h.1)

module _ (loads : Text → Option Value) where
  NotNull-load_braces : (s : Text) → NotNull (load_braces loads s)
  NotNull-load_braces [] = tt
  NotNull-load_braces (c ∷ s) = NotNull-parsed_or (loads _) none tt

  NotNull-parse : (text : Text) → NotNull (parse_llm_json loads text)
  unfolding parse_llm_json
  NotNull-parse text = stripped (strip text)
    where
      unfenced : (s : Text) → NotNull (load_unfenced loads s)
      unfenced s = NotNull-parsed_or (loads s) _ (NotNull-load_braces _)

      fenced :
          (s : Text) (o : Option Text)
          → NotNull (elim o [ some c ↦ load_or_repair loads c | none ↦ load_unfenced loads s ])
      fenced s (some c) = NotNull-parsed_or (loads c) _ (NotNull-parsed_or (loads _) none tt)
      fenced s none = unfenced s

      stripped :
          (s : Text)
          → NotNull (elim s [
            | [] ↦ none
            | c ∷ cleaned ↦ elim (extract_fenced text) [
              | some candidate ↦ load_or_repair loads candidate
              | none ↦ load_unfenced loads (c ∷ cleaned)
            ]
          ])
      stripped [] = tt
      stripped (c ∷ s) = fenced (c ∷ s) (extract_fenced text)

  -- A parsed document is never `null`: a caller that is handed a value has something to check.
  parse_llm_json-ne-null : (text : Text) (v : Value) → parse_llm_json loads text ≡ some v → v ≢ null
  parse_llm_json-ne-null text v h = let p = NotNull-parse text in (rw h at p)

  -- A text without a backtick whose stripped form is not empty and is a JSON document other than
  -- `null` is read as that document, without its wrapper of one key where it has one.
  pub parse_llm_json-plain :
      (text : Text) (v : Value)
      → All (λ c. c ≢ b'`') text
      → strip text ≢ []
      → loads (strip text) ≡ some v
      → v ≢ null
      → parse_llm_json loads text ≡ some (unwrap_wrapper v)
  unfolding parse_llm_json extract_fenced
  parse_llm_json-plain text v h k e d = ground (arith, split_at-fence_free text h)
