-- ===== src/Llm/Dialects.antt =====
-- The rewriting of a JSON schema for the providers (backend/app/llm/schema_dialects.py). The texts
-- of a schema are held as `str`. `depth` is the number of frames that the interpreter leaves to
-- `_inline_refs`, behind which it raises a RecursionError: definitions that refer to each other in a
-- circle use up any depth.
pub mod Depth
pub mod Inlined
pub mod Walk
pub mod Explicit
mod Tests
use auto_apply.Common.{
  ℕ, zero, suc, String, Bool, false, not, ◌&&◌, Option, none, some, List, [], ◌∷◌, str_eq, one_of,
  if◌then◌else◌,
}
use auto_apply.Common.Exec.{Outcome, ok, err}
use auto_apply.Json.{
  Value, bool, str, arr, obj, Fields, no_fields, field, Items, no_items, item, get, set, keys,
  filter_fields, from_names,
}
use auto_apply.Jd.Classify.{starts_with_text, split_slash}

pub data DialectError : Type 0 where
  key_error : String → DialectError
  type_error recursion_error : DialectError

abbrev pub local_prefix : String
local_prefix = "#/$defs/"

abbrev pub last_or : String → List String → String
last_or s [] = s
last_or s (t ∷ l) = last_or t l

-- `ref.rsplit("/", 1)[-1]`
abbrev pub behind_last_slash : String → String
behind_last_slash ref = last_or "" (split_slash ref)

-- the definition that a `$ref` names
abbrev pub ref_name : Option Value → Option String
ref_name (some (str ref)) =
    if starts_with_text local_prefix ref then some (behind_last_slash ref) else none
ref_name _ = none

-- `dict(defs[name])`, where a definition that is no dict is refused
abbrev pub dict_of : String → Option Value → Outcome DialectError Value
dict_of name (some (obj fs)) = ok (obj fs)
dict_of name (some v) = err type_error
dict_of name none = err (key_error name)

abbrev pub resolve : Value → String → Outcome DialectError Value
resolve (obj defs) name = dict_of name (get name defs)
resolve v name = err type_error

-- Both values, or the first error.
abbrev pub both :
    {A B C : Type 0}
    → (A → B → C)
    → Outcome DialectError A
    → Outcome DialectError B
    → Outcome DialectError C
both f (ok a) (ok b) = ok (f a b)
both f (ok a) (err e) = err e
both f (err e) b = err e

abbrev pub on_ok : {A B : Type 0} → (A → B) → Outcome DialectError A → Outcome DialectError B
on_ok f (ok a) = ok (f a)
on_ok f (err e) = err e

-- `{key: f(value) for key, value in node.items()}`
abbrev pub map_fields : (Value → Outcome DialectError Value) → Fields → Outcome DialectError Fields
map_fields f no_fields = ok no_fields
map_fields f (field k v fs) = both (field k) (f v) (map_fields f fs)

-- `[f(item) for item in node]`
abbrev pub map_items : (Value → Outcome DialectError Value) → Items → Outcome DialectError Items
map_items f no_items = ok no_items
map_items f (item v vs) = both item (f v) (map_items f vs)

abbrev pub follow :
    (Value → Outcome DialectError Value) → Outcome DialectError Value → Outcome DialectError Value
follow inline (ok resolved) = inline resolved
follow inline (err e) = err e

-- a dict, by the definition that it names
abbrev pub inline_dict :
    (Value → Outcome DialectError Value)
    → Value
    → Fields
    → Option String
    → Outcome DialectError Value
inline_dict inline defs fs none = on_ok obj (map_fields inline fs)
inline_dict inline defs fs (some name) = follow inline (resolve defs name)

abbrev pub inline_node :
    (Value → Outcome DialectError Value) → Value → Value → Outcome DialectError Value
inline_node inline defs (obj fs) = inline_dict inline defs fs (ref_name (get "$ref" fs))
inline_node inline defs (arr vs) = on_ok arr (map_items inline vs)
inline_node inline defs v = ok v

unfoldable pub inline_refs : Value → ℕ → Value → Outcome DialectError Value
inline_refs defs zero node = err recursion_error
inline_refs defs (suc depth) node = inline_node (inline_refs defs depth) defs node

abbrev mutual
  pub walk : (Fields → Fields) → Value → Value
  walk fn (obj fs) = obj (fn (walk_fields fn fs))
  walk fn (arr vs) = arr (walk_items fn vs)
  walk fn v = v

  pub walk_fields : (Fields → Fields) → Fields → Fields
  walk_fields fn no_fields = no_fields
  walk_fields fn (field k v fs) = field k (walk fn v) (walk_fields fn fs)

  pub walk_items : (Fields → Fields) → Items → Items
  walk_items fn no_items = no_items
  walk_items fn (item v vs) = item (walk fn v) (walk_items fn vs)

-- the test of `_drop`
abbrev pub is_kept : List String → String → Bool
is_kept dropped k = not (one_of k dropped) && not (str_eq k "$defs")

-- `_drop`
abbrev pub drop_fields : List String → Fields → Fields
drop_fields dropped fs = filter_fields (λ k _. is_kept dropped k) fs

-- `schema.get("$defs", {})`
abbrev pub defs_of : Option Value → Value
defs_of (some defs) = defs
defs_of none = obj no_fields

abbrev pub inlined : ℕ → Fields → Outcome DialectError Value
inlined depth schema = inline_refs (defs_of (get "$defs" schema)) depth (obj schema)

abbrev pub drop_for_gemini : Fields → Fields
drop_for_gemini = drop_fields ("additionalProperties" ∷ [])

unfoldable pub gemini_response_schema : ℕ → Fields → Outcome DialectError Value
unfolding inline_refs
gemini_response_schema depth schema = on_ok (walk drop_for_gemini) (inlined depth schema)

-- the assignments where `properties` is a dict
abbrev pub require_all : Option Value → Fields → Fields
require_all (some (obj props)) node =
    set "required" (arr (from_names (keys props))) (set "additionalProperties" (bool false) node)
require_all _ node = node

abbrev pub strictify : Fields → Fields
strictify fs =
    let node = drop_fields ("default" ∷ []) fs in require_all (get "properties" node) node

unfoldable pub openai_compatible_schema : ℕ → Fields → Outcome DialectError Value
unfolding inline_refs
openai_compatible_schema depth schema = on_ok (walk strictify) (inlined depth schema)
