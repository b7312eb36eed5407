-- ===== src/Json/Laws.antt =====
-- Look-ups in a dict behind its updates (backend/app/core_engine/jd_schema.py merges with them).
use auto_apply.Common.{
  String, Bool, true, false, Option, none, some, ◌≡◌, refl, subst, Bool-cases, str_eq, str_eq_refl,
  eq_iff, inl, inr, if◌then◌else◌,
}
use auto_apply.Json.{Value, Fields, no_fields, field, get, set, update, filter_fields}

-- what every Python dict has
abbrev pub DistinctKeys : Fields → Type 0
DistinctKeys no_fields = Unit
DistinctKeys (field k v fs) = (get k fs ≡ none) × DistinctKeys fs

-- `new`, or `old` where there is none
abbrev pub or_else : Option Value → Option Value → Option Value
or_else (some v) old = some v
or_else none old = old

pub str_eq_path : (j k : String) → str_eq j k ≡ true → j ≡ k
str_eq_path j k h = (eq_iff j k).0 h

pub get-set_same : (k : String) (v : Value) (d : Fields) → get k (set k v d) ≡ some v
get-set_same k v no_fields = rw (str_eq_refl k)
get-set_same k v (field j w fs) = elim (Bool-cases (str_eq j k)) [
  | inl a ↦ rw (a, a)
  | inr a ↦ rw (a, a, get-set_same k v fs)
]

pub get-set_other :
    (j k : String) (v : Value) (d : Fields) → str_eq k j ≡ false → get j (set k v d) ≡ get j d
get-set_other j k v no_fields h = rw h
get-set_other j k v (field i w fs) h = elim (Bool-cases (str_eq i k)) [
  | inl a ↦ let other : str_eq i j ≡ false = (rw (str_eq_path i k a, h)) in rw (a, other)
  | inr a ↦ rw (a, get-set_other j k v fs h)
]

pub get-update :
    (k : String) (e d : Fields) → DistinctKeys e → get k (update d e) ≡ or_else (get k e) (get k d)
get-update k no_fields d h = refl
get-update k (field j v fs) d (fresh, h) = elim (Bool-cases (str_eq j k)) [
  | inl a ↦
      let at_k : get k fs ≡ none = (subst (λ i. get i fs ≡ none) (str_eq_path j k a) fresh) in
      let here : get k (set j v d) ≡ some v =
        (subst (λ i. get i (set j v d) ≡ some v) (str_eq_path j k a) (get-set_same j v d)) in
      rw (a, get-update k fs (set j v d) h, at_k, here)
  | inr a ↦ rw (a, get-update k fs (set j v d) h, get-set_other k j v d a)
]

-- the value of a key of a dict that passes the test
abbrev pub passing : (Value → Bool) → Option Value → Option Value
passing p none = none
passing p (some v) = if p v then some v else none

pub get-filter_fields :
    (p : Value → Bool) (k : String) (fs : Fields)
    → DistinctKeys fs
    → get k (filter_fields (λ _ v. p v) fs) ≡ passing p (get k fs)
get-filter_fields p k no_fields h = refl
get-filter_fields p k (field j v fs) (fresh, h) = elim (Bool-cases (str_eq j k)) [
  | inl a ↦
      let at_k : get k fs ≡ none = (subst (λ i. get i fs ≡ none) (str_eq_path j k a) fresh) in
      elim (Bool-cases (p v)) [
        | inl b ↦ rw (b, a, b)
        | inr b ↦ rw (b, a, b, get-filter_fields p k fs h, at_k)
      ]
  | inr a ↦ elim (Bool-cases (p v)) [
    | inl b ↦ rw (b, a, get-filter_fields p k fs h)
    | inr b ↦ rw (b, a, get-filter_fields p k fs h)
  ]
]

pub filter_fields-Distinct :
    (p : Value → Bool) (fs : Fields)
    → DistinctKeys fs
    → DistinctKeys (filter_fields (λ _ v. p v) fs)
filter_fields-Distinct p no_fields h = tt
filter_fields-Distinct p (field j v fs) (fresh, h) = elim (Bool-cases (p v)) [
  | inl b ↦
      let absent : get j (filter_fields (λ _ v. p v) fs) ≡ none =
        (rw (get-filter_fields p j fs h, fresh)) in
      rw b (absent, filter_fields-Distinct p fs h)
  | inr b ↦ rw b (filter_fields-Distinct p fs h)
]
