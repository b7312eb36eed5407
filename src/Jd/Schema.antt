-- ===== src/Jd/Schema.antt =====
-- The fields of a posting: the merge of one section over what earlier doors found, the residual
-- categories, and the signals that are still missing (backend/app/core_engine/jd_schema.py, gaps_for
-- of jd_doors.py and is_plausible_posting of jd_extractor.py).
pub mod Merge
use Prim.Native.Char.{code}
use auto_apply.Common.{
  ℕ, String, Bool, true, false, not, ◌&&◌, ◌||◌, Option, none, some, List, [], ◌∷◌, ◌++◌,
  is_empty_text, if◌then◌else◌,
}
use auto_apply.Json.{
  Value, null, str, text_of, arr, obj, Fields, no_fields, field, Items, no_items, item, get, set,
  update, filter_fields, take_fields, truthy,
}
use auto_apply.Llm.JsonText.{is_space, strip}

-- `DoorRoute`
pub record DoorRoute : Type 0 where
  pub url : String
  pub platform : String
  pub door : ℕ
  pub slug : Option String
  pub posting_id : Option String

abbrev pub current_schema_version : ℕ
current_schema_version = 1

abbrev pub other_max_keys : ℕ
other_max_keys = 8

-- `value is None`, or a list, a dict or a text that is empty
abbrev pub is_empty : Value → Bool
is_empty null = true
is_empty (str s) = is_empty_text s
is_empty (text_of []) = true
is_empty (arr no_items) = true
is_empty (obj no_fields) = true
is_empty _ = false

abbrev pub non_empty : Value → Bool
non_empty v = not (is_empty v)

-- `dict(accumulator[key])` where that is a dict
abbrev pub dict_or_empty : Option Value → Fields
dict_or_empty (some (obj fs)) = fs
dict_or_empty _ = no_fields

-- one non-empty dict of a section: `accumulator[key]` with its entries replaced
abbrev pub merge_inner : String → Fields → Fields → Fields
merge_inner key no_fields acc = acc
merge_inner key (field k v inner) acc =
    set key (obj (update (dict_or_empty (get key acc)) (field k v inner))) acc

-- the body of the loop in `merge_over`
abbrev pub merge_field : String → Value → Fields → Fields
merge_field key (obj inner) acc = merge_inner key (filter_fields (λ _ v. non_empty v) inner) acc
merge_field key value acc = if is_empty value then acc else set key value acc

unfoldable pub merge_over : Fields → Fields → Fields
merge_over acc no_fields = acc
merge_over acc (field key value section) = merge_over (merge_field key value acc) section

-- `str.strip` on a text that is held as a `String`
abbrev pub lstrip_string : String → String
lstrip_string String.[] = ""
lstrip_string (String.◌∷◌ c s) =
    let rest = lstrip_string s in if is_space (code c) then rest else String.◌∷◌ c s

abbrev pub rstrip_string : String → String
rstrip_string String.[] = ""
rstrip_string (String.◌∷◌ c s) =
    let rest = rstrip_string s in
    if is_empty_text rest && is_space (code c) then "" else String.◌∷◌ c rest

abbrev pub strip_string : String → String
strip_string s = rstrip_string (lstrip_string s)

-- one residual category
pub record OtherEntry : Type 0 where
  pub name : String
  pub values : List String

-- `_other_from_wire`: the legacy dict as a list of name and values
abbrev pub wire_entries : Fields → Items
wire_entries no_fields = no_items
wire_entries (field name (arr raw) fs) =
    item (obj (field "name" (str name) (field "values" (arr raw) no_fields))) (wire_entries fs)
wire_entries (field name raw fs) =
    item (obj (field "name" (str name) (field "values" (arr (item raw no_items)) no_fields)))
      (wire_entries fs)

unfoldable pub other_from_wire : Value → Value
other_from_wire (obj fs) = arr (wire_entries fs)
other_from_wire value = value

abbrev pub value_items : List String → Items
value_items [] = no_items
value_items (v ∷ vs) = item (str v) (value_items vs)

-- a single value persists as a bare text
abbrev pub entry_value : List String → Value
entry_value (v ∷ []) = str v
entry_value vs = arr (value_items vs)

-- the loop of `to_payload_dict`
abbrev pub collect_entries : List OtherEntry → Fields → Fields
collect_entries [] out = out
collect_entries (e ∷ es) out =
    let name = strip_string e.name in
    collect_entries es (if is_empty_text name then out else set name (entry_value e.values) out)

unfoldable pub to_payload_dict : List OtherEntry → Fields
to_payload_dict other = take_fields other_max_keys (collect_entries other no_fields)

-- the truth of `_clean_str(value)`: only `None` and a blank text clean to nothing
abbrev pub cleans_to_text : Option Value → Bool
cleans_to_text none = false
cleans_to_text (some null) = false
cleans_to_text (some (str s)) = not (is_empty_text (strip_string s))
cleans_to_text (some (text_of t)) = elim (strip t) [ [] ↦ false | c ∷ s ↦ true ]
cleans_to_text (some _) = true

-- the truth of `d.get(key)`
abbrev pub truthy_at : String → Fields → Bool
truthy_at key fs = elim (get key fs) [ none ↦ false | some v ↦ truthy v ]

-- `d.get("skills") or {}`, `none` where a truthy value has no `get`
abbrev pub skills_of : Option Value → Option Fields
skills_of none = some no_fields
skills_of (some (obj fs)) = some fs
skills_of (some v) = if truthy v then none else some no_fields

abbrev pub missing_if : Bool → String → List String
missing_if b name = if b then name ∷ [] else []

-- `gaps_for(structured).missing_criticals`; `none` is the AttributeError of `skills.get`
unfoldable pub gaps_for : Fields → Option (List String)
gaps_for structured = elim (skills_of (get "skills" structured)) [
  | none ↦ none
  | some skills ↦ some (
      missing_if (not (cleans_to_text (get "title" structured))) "title"
      ++ missing_if (not (cleans_to_text (get "company" structured))) "company"
      ++ missing_if (not (truthy_at "responsibilities" structured)) "responsibilities"
      ++ missing_if (not (truthy_at "required" skills || truthy_at "preferred" skills)) "skills")
]

-- the D43 gate; `none` is the AttributeError of `skills.get`
unfoldable pub is_plausible_posting : Fields → Bool → Option Bool
is_plausible_posting payload true = some true
is_plausible_posting payload false =
    if truthy_at "responsibilities" payload
    then some true
    else elim (skills_of (get "skills" payload)) [
      | none ↦ none
      | some skills ↦ some (truthy_at "required" skills || truthy_at "preferred" skills)
    ]
