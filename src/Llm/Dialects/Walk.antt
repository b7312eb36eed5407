-- ===== src/Llm/Dialects/Walk.antt =====
-- What `_walk` and `_drop` leave in every dict of a schema (backend/app/llm/schema_dialects.py).
use auto_apply.Common.{
  String, true, false, none, some, List, ◌≡◌, refl, subst, Bool-cases, str_eq, inl, inr,
}
use auto_apply.Json.{Value, obj, arr, Fields, no_fields, field, Items, no_items, item, get, set}
use auto_apply.Json.Laws.{str_eq_path}
use auto_apply.Llm.Dialects.{ref_name, walk, walk_fields, walk_items, is_kept, drop_fields}
use auto_apply.Llm.Dialects.Inlined.{Everywhere, EachField, EachItem}

ref_name-walk : (fn : Fields → Fields) (v : Value) → ref_name (some (walk fn v)) ≡ ref_name (some v)
ref_name-walk fn (obj fs) = refl
ref_name-walk fn (arr vs) = refl
ref_name-walk fn v = refl

pub walk_fields-ref :
    (fn : Fields → Fields) (k : String) (fs : Fields)
    → ref_name (get k (walk_fields fn fs)) ≡ ref_name (get k fs)
walk_fields-ref fn k no_fields = refl
walk_fields-ref fn k (field j v fs) = elim (Bool-cases (str_eq j k)) [
  | inl a ↦ rw (a, ref_name-walk fn v)
  | inr a ↦ rw (a, walk_fields-ref fn k fs)
]

-- A rewriting that makes `P` of `Q` at one dict makes it everywhere.
module _ (fn : Fields → Fields) (Q P : Fields → Type 0)
    (at_dict : (fs : Fields)
      → Q fs
      → EachField P (walk_fields fn fs)
      → P (fn (walk_fields fn fs)) × EachField P (fn (walk_fields fn fs))) where
  mutual
    pub walk-Everywhere : (v : Value) → Everywhere Q v → Everywhere P (walk fn v)
    walk-Everywhere (obj fs) (h, k) = at_dict fs h (walk_fields-Each fs k)
    walk-Everywhere (arr vs) h = walk_items-Each vs h
    walk-Everywhere v h = tt

    walk_fields-Each : (fs : Fields) → EachField Q fs → EachField P (walk_fields fn fs)
    walk_fields-Each no_fields h = tt
    walk_fields-Each (field k v fs) (h, g) = (walk-Everywhere v h, walk_fields-Each fs g)

    walk_items-Each : (vs : Items) → EachItem Q vs → EachItem P (walk_items fn vs)
    walk_items-Each no_items h = tt
    walk_items-Each (item v vs) (h, g) = (walk-Everywhere v h, walk_items-Each vs g)

pub get-drop_kept :
    (dropped : List String) (k : String) (fs : Fields)
    → is_kept dropped k ≡ true
    → get k (drop_fields dropped fs) ≡ get k fs
get-drop_kept dropped k no_fields h = refl
get-drop_kept dropped k (field j v fs) h = elim (Bool-cases (is_kept dropped j)) [
  | inl b ↦ rw (b, get-drop_kept dropped k fs h)
  | inr b ↦ elim (Bool-cases (str_eq j k)) [
    | inl a ↦
        let bad : is_kept dropped k ≡ false =
          (subst (λ x. is_kept dropped x ≡ false) (str_eq_path j k a) b) in
        absurd (cc)
    | inr a ↦ rw (b, a, get-drop_kept dropped k fs h)
  ]
]

pub get-drop_gone :
    (dropped : List String) (k : String) (fs : Fields)
    → is_kept dropped k ≡ false
    → get k (drop_fields dropped fs) ≡ none
get-drop_gone dropped k no_fields h = refl
get-drop_gone dropped k (field j v fs) h = elim (Bool-cases (is_kept dropped j)) [
  | inr b ↦ rw (b, get-drop_gone dropped k fs h)
  | inl b ↦ elim (Bool-cases (str_eq j k)) [
    | inl a ↦
        let bad : is_kept dropped k ≡ true =
          (subst (λ x. is_kept dropped x ≡ true) (str_eq_path j k a) b) in
        absurd (cc)
    | inr a ↦ rw (b, a, get-drop_gone dropped k fs h)
  ]
]

pub drop-Each :
    (P : Fields → Type 0) (dropped : List String) (fs : Fields)
    → EachField P fs
    → EachField P (drop_fields dropped fs)
drop-Each P dropped no_fields h = tt
drop-Each P dropped (field j v fs) (h, g) = elim (Bool-cases (is_kept dropped j)) [
  | inl b ↦ rw b (h, drop-Each P dropped fs g)
  | inr b ↦ rw b (drop-Each P dropped fs g)
]

pub set-Each :
    (P : Fields → Type 0) (k : String) (v : Value) (fs : Fields)
    → Everywhere P v
    → EachField P fs
    → EachField P (set k v fs)
set-Each P k v no_fields h g = (h, tt)
set-Each P k v (field j w fs) h (g, gs) = elim (Bool-cases (str_eq j k)) [
  | inl a ↦ rw a (h, gs)
  | inr a ↦ rw a (g, set-Each P k v fs h gs)
]
