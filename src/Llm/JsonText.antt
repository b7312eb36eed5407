-- ===== src/Llm/JsonText.antt =====
-- Tolerant parsing of a model's output (backend/app/llm/json_utils.py). Texts are lists of code
-- points. `loads` is `json.loads`, `none` where that raises.
pub mod Scan
pub mod Laws
pub mod Matched
pub mod Fenced
mod Tests
use auto_apply.Common.{
  ℕ, Bool, true, false, ◌&&◌, ◌||◌, not, Option, none, some, List, [], ◌∷◌, ◌++◌, leb, ◌==◌,
  if◌then◌else◌, any_of, String, one_of, Text,
}
use auto_apply.Json.{Value, null, obj, arr, Fields, field, no_fields}

abbrev pub between : ℕ → ℕ → ℕ → Bool
between lo hi c = leb lo c && leb c hi

-- `str.isspace`
abbrev pub is_space : ℕ → Bool
is_space c =
    between 9 13 c
    || between 28 32 c
    || c == 133
    || c == 160
    || c == 5760
    || between 8192 8202 c
    || between 8232 8233 c
    || c == 8239
    || c == 8287
    || c == 12288

unfoldable pub drop_while : (ℕ → Bool) → Text → Text
drop_while p [] = []
drop_while p (c ∷ s) = let rest = drop_while p s in if p c then rest else c ∷ s

-- without the longest end of characters that pass the test
unfoldable pub drop_end : (ℕ → Bool) → Text → Text
drop_end p [] = []
drop_end p (c ∷ s) = elim (drop_end p s) [ [] ↦ if p c then [] else c ∷ [] | d ∷ r ↦ c ∷ d ∷ r ]

-- `text.strip()`
unfoldable pub strip : Text → Text
unfolding drop_while drop_end
strip s = drop_end is_space (drop_while is_space s)

-- `needle` at the head of a text, and the rest behind it
unfoldable pub after_prefix : Text → Text → Option Text
after_prefix [] s = some s
after_prefix (c ∷ p) [] = none
after_prefix (c ∷ p) (d ∷ s) = if c == d then after_prefix p s else none

-- the text before the first occurrence of `needle`, and the text behind it
unfoldable pub split_at : Text → Text → Option (Text × Text)
unfolding after_prefix
split_at needle [] = elim (after_prefix needle []) [ none ↦ none | some r ↦ some ([], r) ]
split_at needle (c ∷ s) = elim (after_prefix needle (c ∷ s)) [
  | some r ↦ some ([], r)
  | none ↦ elim (split_at needle s) [ none ↦ none | some (a, r) ↦ some (c ∷ a, r) ]
]

abbrev pub fence : Text
fence = b'`' ∷ b'`' ∷ b'`' ∷ []

-- `(?:json)?` under IGNORECASE, which folds U+017F to `s`
abbrev pub skip_json : Text → Text
skip_json (a ∷ b ∷ c ∷ d ∷ s) =
    if (a == b'j' || a == b'J')
      && (b == b's' || b == b'S' || b == 383)
      && (c == b'o' || c == b'O')
      && (d == b'n' || d == b'N')
    then s
    else a ∷ b ∷ c ∷ d ∷ s
skip_json s = s

-- The first fence is the only one from which the pattern can match: what follows it up to the next
-- fence holds no other.
unfoldable pub extract_fenced : Text → Option Text
unfolding split_at strip
extract_fenced text = elim (split_at fence text) [
  | none ↦ none
  | some (_, rest) ↦ elim (split_at fence (drop_while is_space (skip_json rest))) [
    | none ↦ none
    | some (body, _) ↦ some (strip body)
  ]
]

-- the state of the loop in `_repair_truncated`; the top of the stack is at the head
pub record Scanner : Type 0 where
  pub stack : List ℕ
  pub in_string : Bool
  pub escaped : Bool

abbrev pub start : Scanner
start = record { stack = []; in_string = false; escaped = false }

abbrev pub pop : List ℕ → List ℕ
pop [] = []
pop (x ∷ xs) = xs

abbrev pub scan_in_string : Scanner → ℕ → Scanner
scan_in_string s ch =
    if s.escaped
    then record s { escaped = false }
    else if ch == b'\\'
    then record s { escaped = true }
    else if ch == b'"'
    then record s { in_string = false }
    else s

abbrev pub scan_outside : Scanner → ℕ → Scanner
scan_outside s ch =
    if ch == b'"'
    then record s { in_string = true }
    else if ch == b'[' || ch == b'{'
    then record s { stack = ch ∷ s.stack }
    else if ch == b']' || ch == b'}'
    then record s { stack = pop s.stack }
    else s

abbrev pub scan_char : Scanner → ℕ → Scanner
scan_char s ch = if s.in_string then scan_in_string s ch else scan_outside s ch

unfoldable pub scan : Scanner → Text → Scanner
scan s [] = s
scan s (ch ∷ rest) = scan (scan_char s ch) rest

-- `" \t\n\r:,{[`"`
abbrev pub is_partial : ℕ → Bool
is_partial c =
    c == 32
    || c == 9
    || c == 10
    || c == 13
    || c == b':'
    || c == b','
    || c == b'{'
    || c == b'['
    || c == b'`'

abbrev pub closer : ℕ → ℕ
closer c = if c == b'{' then b'}' else b']'

abbrev pub closers : List ℕ → Text
closers [] = []
closers (c ∷ cs) = closer c ∷ closers cs

unfoldable pub repair_truncated : Text → Text
unfolding drop_end scan
repair_truncated candidate =
    let fixed = drop_end is_partial candidate in
    let s = scan start fixed in
    (if s.in_string then fixed ++ b'"' ∷ [] else fixed) ++ closers s.stack

-- `None` stands for a failure and for the document `null` alike.
abbrev pub not_null : Option Value → Option Value
not_null (some null) = none
not_null o = o

abbrev pub wrapper_keys : List String
wrapper_keys = "result" ∷ "output" ∷ []

unfoldable pub unwrap_single_key : Fields → Option Value
unwrap_single_key (field k (obj fs) no_fields) =
    if one_of k wrapper_keys then some (obj fs) else none
unwrap_single_key (field k (arr vs) no_fields) =
    if one_of k wrapper_keys then some (arr vs) else none
unwrap_single_key _ = none

unfoldable pub unwrap_wrapper : Value → Value
unfolding unwrap_single_key
unwrap_wrapper (obj fs) = elim (unwrap_single_key fs) [ none ↦ obj fs | some v ↦ v ]
unwrap_wrapper v = v

-- up to the last closing bracket, the whole text where there is none
unfoldable pub through_last_close : Text → Text
unfolding drop_end
through_last_close s =
    if any_of (λ c. c == b'}' || c == b']') s
    then drop_end (λ c. not (c == b'}' || c == b']')) s
    else s

-- `if parsed is not None: return _unwrap_wrapper(parsed)`, and what follows
abbrev pub parsed_or : Option Value → Option Value → Option Value
parsed_or (some v) rest = some (unwrap_wrapper v)
parsed_or none rest = rest

module _ (loads : Text → Option Value) where
  abbrev pub try_load : Text → Option Value
  try_load candidate = not_null (loads candidate)

  -- a candidate as it stands, then repaired
  abbrev pub load_or_repair : Text → Option Value
  load_or_repair candidate =
      parsed_or (try_load candidate) (parsed_or (try_load (repair_truncated candidate)) none)

  -- from the first brace on; `none` where there is none
  abbrev pub load_braces : Text → Option Value
  load_braces [] = none
  load_braces (c ∷ s) = parsed_or (try_load (repair_truncated (through_last_close (c ∷ s)))) none

  -- the lane for a text with no fence
  abbrev pub load_unfenced : Text → Option Value
  load_unfenced cleaned =
      parsed_or (try_load cleaned) (load_braces (drop_while (λ c. not (c == b'{')) cleaned))

  unfoldable pub parse_llm_json : Text → Option Value
  parse_llm_json text = elim (strip text) [
    | [] ↦ none
    | c ∷ cleaned ↦ elim (extract_fenced text) [
      | some candidate ↦ load_or_repair candidate
      | none ↦ load_unfenced (c ∷ cleaned)
    ]
  ]
