-- ===== src/Llm/JsonText/Tests.antt =====
-- Runs of the reader of answers on sample texts.
use auto_apply.Common.{◌≡◌, ◌≢◌, refl, arith, true, none, some, [], ◌∷◌, ◌++◌, All, Text, codes}
use auto_apply.Json.{str}
use auto_apply.Llm.JsonText.{
  repair_truncated, scan, start, drop_end, is_partial, parse_llm_json, unwrap_wrapper,
}
use auto_apply.Llm.JsonText.Scan.{repair_truncated_unclosed}
use auto_apply.Llm.JsonText.Matched.{brace, square, outside, inside, read, repair_truncated-Matched}
use auto_apply.Llm.JsonText.Fenced.{fenced, parse_llm_json-fenced}
use auto_apply.Llm.Fixtures.{loads_yes}

-- a document that breaks off inside a text
abbrev cut_off : Text
cut_off = codes "{\"a\": [1, \"b"

abbrev mended : Text
mended = codes "{\"a\": [1, \"b\"]}"

-- and one that breaks off behind a backslash
abbrev cut_at_backslash : Text
cut_at_backslash = codes "{\"a\": \"b\\"

repair_truncated_run : repair_truncated cut_off ≡ mended
unfolding repair_truncated drop_end scan
repair_truncated_run = refl

repair_truncated-Matched_example :
    (rest : Text) × (repair_truncated cut_off ≡ drop_end is_partial cut_off ++ rest)
    × (read outside [] (repair_truncated cut_off) ≡ some (outside, []))
unfolding drop_end read
repair_truncated-Matched_example =
    repair_truncated-Matched cut_off inside (square ∷ brace ∷ []) refl (λ e. cc)

-- a bracket that closes one of the other kind
mixed_brackets : read outside [] (codes "[1}") ≡ none
unfolding read
mixed_brackets = refl

repair_truncated_unclosed_example :
    (scan start (repair_truncated cut_at_backslash)).in_string ≡ true
unfolding drop_end scan
repair_truncated_unclosed_example = repair_truncated_unclosed cut_at_backslash refl refl

abbrev chatty : Text
chatty = codes "Sure: "

abbrev bye : Text
bye = codes " `bye`"

chatty-NoTick : All (λ c. c ≢ b'`') chatty
chatty-NoTick = ground arith

parse_llm_json-fenced_example :
    (parse_llm_json loads_yes (fenced chatty (codes "y") bye) ≡ some (str "yes"))
    × (parse_llm_json loads_yes (codes "y") ≡ some (str "yes"))
unfolding drop_end unwrap_wrapper
parse_llm_json-fenced_example =
    parse_llm_json-fenced loads_yes chatty bye [] b'y' (str "yes") chatty-NoTick
      (λ e. ground arith, tt) refl refl refl (λ e. cc)
