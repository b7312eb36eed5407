-- ===== src/Json.antt =====
-- The values that Python's `json` module and pydantic hand the program: dicts keep the order of
-- insertion. A float is kept as its printed form, which the program never computes with.
pub mod Laws
use auto_apply.Common.{
  ℕ, zero, suc, ◌==◌, String, Bool, true, false, not, ◌||◌, Option, none, some, List, [], ◌∷◌, Text,
  str_eq, is_empty_text, if◌then◌else◌,
}

mutual
  pub data Value : Type 0 where
    null : Value
    bool : Bool → Value
    int : ℤ → Value
    float : String → Value
    str : String → Value
    -- a string that is held by its code points
    text_of : Text → Value
    arr : Items → Value
    obj : Fields → Value

  -- `neg n` is -(n + 1).
  pub data ℤ : Type 0 where
    pos : ℕ → ℤ
    neg : ℕ → ℤ

  pub data Fields : Type 0 where
    no_fields : Fields
    field : String → Value → Fields → Fields

  pub data Items : Type 0 where
    no_items : Items
    item : Value → Items → Items

-- the names of a list, in order; what is no text is left out
abbrev pub names : Items → List String
names no_items = []
names (item (str s) vs) = s ∷ names vs
names (item _ vs) = names vs

-- `d.get(key)`
abbrev pub get : String → Fields → Option Value
get k no_fields = none
get k (field j v fs) = if str_eq j k then some v else get k fs

-- `d[key] = value`: a present key keeps its place, a new one goes to the end.
abbrev pub set : String → Value → Fields → Fields
set k v no_fields = field k v no_fields
set k v (field j w fs) = if str_eq j k then field j v fs else field j w (set k v fs)

-- `d.update(e)`
abbrev pub update : Fields → Fields → Fields
update d no_fields = d
update d (field k v fs) = update (set k v d) fs

-- `{k: v for k, v in d.items() if p(k, v)}`
abbrev pub filter_fields : (String → Value → Bool) → Fields → Fields
filter_fields p no_fields = no_fields
filter_fields p (field k v fs) =
    let rest = filter_fields p fs in if p k v then field k v rest else rest

-- `dict(list(d.items())[:n])`
abbrev pub take_fields : ℕ → Fields → Fields
take_fields zero fs = no_fields
take_fields (suc n) no_fields = no_fields
take_fields (suc n) (field k v fs) = field k v (take_fields n fs)

abbrev pub keys : Fields → List String
keys no_fields = []
keys (field k v fs) = k ∷ keys fs

abbrev pub from_names : List String → Items
from_names [] = no_items
from_names (s ∷ l) = item (str s) (from_names l)

-- Python's truth of a value
abbrev pub truthy : Value → Bool
truthy null = false
truthy (bool b) = b
truthy (int (pos n)) = not (n == 0)
truthy (int (neg n)) = true
truthy (float s) = not (str_eq s "0.0" || str_eq s "-0.0")
truthy (str s) = not (is_empty_text s)
truthy (text_of []) = false
truthy (text_of (c ∷ t)) = true
truthy (arr no_items) = false
truthy (arr (item v vs)) = true
truthy (obj no_fields) = false
truthy (obj (field k v fs)) = true
