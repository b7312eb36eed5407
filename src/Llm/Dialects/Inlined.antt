-- ===== src/Llm/Dialects/Inlined.antt =====
-- What `_inline_refs` leaves of the references (backend/app/llm/schema_dialects.py).
use auto_apply.Common.{
  ℕ, zero, suc, String, Option, none, some, ◌≡◌, refl, ◌∙◌, Bool-cases, str_eq, inl, inr,
}
use auto_apply.Common.Exec.{Outcome, ok, err}
use auto_apply.Json.{Value, obj, arr, Fields, no_fields, field, Items, no_items, item, get}
use auto_apply.Llm.Dialects.{
  DialectError, ref_name, dict_of, resolve, both, on_ok, map_fields, map_items, follow, inline_dict,
  inline_node, inline_refs,
}

abbrev pub IfOk : {A : Type 0} → (A → Type 0) → Outcome DialectError A → Type 0
IfOk P (ok a) = P a
IfOk P (err e) = Unit

-- `P` holds of every dict of a value.
abbrev mutual
  pub Everywhere : (Fields → Type 0) → Value → Type 0
  Everywhere P (obj fs) = P fs × EachField P fs
  Everywhere P (arr vs) = EachItem P vs
  Everywhere P v = Unit

  pub EachField : (Fields → Type 0) → Fields → Type 0
  EachField P no_fields = Unit
  EachField P (field k v fs) = Everywhere P v × EachField P fs

  pub EachItem : (Fields → Type 0) → Items → Type 0
  EachItem P no_items = Unit
  EachItem P (item v vs) = Everywhere P v × EachItem P vs

-- The dict is no reference to a definition.
abbrev pub NoRef : Fields → Type 0
NoRef fs = ref_name (get "$ref" fs) ≡ none

abbrev InlinedFrom : Value → Value → Type 0
InlinedFrom v r = Everywhere NoRef r × (ref_name (some r) ≡ ref_name (some v))

abbrev FieldsFrom : Fields → Fields → Type 0
FieldsFrom fs r = EachField NoRef r × (ref_name (get "$ref" r) ≡ ref_name (get "$ref" fs))

field-From :
    (j : String) (v : Value) (fs : Fields) (a : Outcome DialectError Value)
    (b : Outcome DialectError Fields)
    → IfOk (InlinedFrom v) a
    → IfOk (FieldsFrom fs) b
    → IfOk (FieldsFrom (field j v fs)) (both (field j) a b)
field-From j v fs (ok w) (ok r) (hv, ev) (hf, ef) =
    let same : ref_name (get "$ref" (field j w r)) ≡ ref_name (get "$ref" (field j v fs)) =
      elim (Bool-cases (str_eq j "$ref")) [ inl a ↦ rw (a, ev) | inr a ↦ rw (a, ef) ] in
    ((hv, hf), same)
field-From j v fs (ok w) (err e) h k = tt
field-From j v fs (err e) b h k = tt

item-From :
    (v : Value) (a : Outcome DialectError Value) (b : Outcome DialectError Items)
    → IfOk (InlinedFrom v) a
    → IfOk (EachItem NoRef) b
    → IfOk (EachItem NoRef) (both item a b)
item-From v (ok w) (ok r) (hv, ev) k = (hv, k)
item-From v (ok w) (err e) h k = tt
item-From v (err e) b h k = tt

obj-From :
    (fs : Fields) (a : Outcome DialectError Fields)
    → NoRef fs
    → IfOk (FieldsFrom fs) a
    → IfOk (InlinedFrom (obj fs)) (on_ok obj a)
obj-From fs (ok r) h (k, e) = ((e ∙ h, k), refl)
obj-From fs (err e) h k = tt

arr-From :
    (vs : Items) (a : Outcome DialectError Items)
    → IfOk (EachItem NoRef) a
    → IfOk (InlinedFrom (arr vs)) (on_ok arr a)
arr-From vs (ok r) h = (h, refl)
arr-From vs (err e) h = tt

-- One call, from the calls that it makes.
module _ (defs : Value) (inline : Value → Outcome DialectError Value)
    (inlines : (v : Value) → IfOk (InlinedFrom v) (inline v)) where
  map_fields-From : (fs : Fields) → IfOk (FieldsFrom fs) (map_fields inline fs)
  map_fields-From no_fields = (tt, refl)
  map_fields-From (field j v fs) =
      field-From j v fs (inline v) (map_fields inline fs) (inlines v) (map_fields-From fs)

  map_items-From : (vs : Items) → IfOk (EachItem NoRef) (map_items inline vs)
  map_items-From no_items = tt
  map_items-From (item v vs) =
      item-From v (inline v) (map_items inline vs) (inlines v) (map_items-From vs)

  dict_of-From :
      (fs : Fields) (name : String) (found : Option Value)
      → IfOk (InlinedFrom (obj fs)) (follow inline (dict_of name found))
  dict_of-From fs name (some (obj d)) = inlines (obj d)
  dict_of-From fs name (some v) = tt
  dict_of-From fs name none = tt

  resolve-From :
      (fs : Fields) (name : String) (d : Value)
      → IfOk (InlinedFrom (obj fs)) (follow inline (resolve d name))
  resolve-From fs name (obj d) = dict_of-From fs name (get name d)
  resolve-From fs name v = tt

  dict-From :
      (fs : Fields) (name : Option String)
      → ref_name (get "$ref" fs) ≡ name
      → IfOk (InlinedFrom (obj fs)) (inline_dict inline defs fs name)
  dict-From fs none e = obj-From fs (map_fields inline fs) e (map_fields-From fs)
  dict-From fs (some name) e = resolve-From fs name defs

  node-From : (v : Value) → IfOk (InlinedFrom v) (inline_node inline defs v)
  node-From (obj fs) = dict-From fs (ref_name (get "$ref" fs)) refl
  node-From (arr vs) = arr-From vs (map_items inline vs) (map_items-From vs)
  node-From v = (tt, refl)

inline_refs-From :
    (defs : Value) (depth : ℕ) (v : Value) → IfOk (InlinedFrom v) (inline_refs defs depth v)
unfolding inline_refs
inline_refs-From defs zero v = tt
inline_refs-From defs (suc depth) v =
    node-From defs (inline_refs defs depth) (inline_refs-From defs depth) v

weaker-IfOk :
    {A : Type 0} (P Q : A → Type 0) (a : Outcome DialectError A)
    → ((x : A) → P x → Q x)
    → IfOk P a
    → IfOk Q a
weaker-IfOk P Q (ok x) f h = f x h
weaker-IfOk P Q (err e) f h = tt

-- No reference to a definition is left.
pub inline_refs-NoRef :
    (defs : Value) (depth : ℕ) (v : Value) → IfOk (Everywhere NoRef) (inline_refs defs depth v)
inline_refs-NoRef defs depth v =
    weaker-IfOk (InlinedFrom v) (Everywhere NoRef) (inline_refs defs depth v) (λ r h. h.0)
      (inline_refs-From defs depth v)
