-- ===== src/Jd/Schema/Merge.antt =====
-- What a merge leaves at each key (merge_over, backend/app/core_engine/jd_schema.py).
use auto_apply.Common.{
  String, Bool, true, false, ◌||◌, ◌∙◌, ap, Option, none, some, ◌≡◌, refl, subst, Bool-cases,
  str_eq, eq_iff, inl, inr, if_induction, if◌then◌else◌,
}
use auto_apply.Json.{Value, obj, Fields, no_fields, field, get, set, update, filter_fields}
use auto_apply.Json.Laws.{
  DistinctKeys, or_else, get-set_same, get-set_other, get-update, passing, get-filter_fields,
  filter_fields-Distinct,
}
use auto_apply.Jd.Schema.{is_empty, non_empty, dict_or_empty, merge_inner, merge_field, merge_over}

-- What one value of a section makes of the value before it: nothing where it is empty, the entries
-- that are not empty where it is a dict, and itself elsewhere.
abbrev pub merge_value : Option Value → Value → Option Value
merge_value old (obj inner) = elim (filter_fields (λ _ v. non_empty v) inner) [
  | no_fields ↦ old
  | field k v rest ↦ some (obj (update (dict_or_empty old) (field k v rest)))
]
merge_value old value = if is_empty value then old else some value

-- what a section makes of the value at a key
abbrev pub merged_with : Option Value → Option Value → Option Value
merged_with none old = old
merged_with (some value) old = merge_value old value

keep_or_set :
    (key : String) (value : Value) (acc : Fields)
    → get key (if is_empty value then acc else set key value acc)
      ≡ (if is_empty value then get key acc else some value)
keep_or_set key value acc = elim (Bool-cases (is_empty value)) [
  | inl a ↦ rw a
  | inr a ↦ rw (a, get-set_same key value acc)
]

merge_inner_same :
    (key : String) (inner acc : Fields)
    → get key (merge_inner key inner acc) ≡ elim inner [
      | no_fields ↦ get key acc
      | field k v rest ↦ some (obj (update (dict_or_empty (get key acc)) (field k v rest)))
    ]
merge_inner_same key no_fields acc = refl
merge_inner_same key (field k v rest) acc =
    get-set_same key (obj (update (dict_or_empty (get key acc)) (field k v rest))) acc

merge_field_same :
    (key : String) (value : Value) (acc : Fields)
    → get key (merge_field key value acc) ≡ merge_value (get key acc) value
merge_field_same key (obj inner) acc =
    merge_inner_same key (filter_fields (λ _ v. non_empty v) inner) acc
merge_field_same key value acc = keep_or_set key value acc

keep_or_set_other :
    (j key : String) (value : Value) (acc : Fields)
    → str_eq key j ≡ false
    → get j (if is_empty value then acc else set key value acc) ≡ get j acc
keep_or_set_other j key value acc h = elim (Bool-cases (is_empty value)) [
  | inl a ↦ rw a
  | inr a ↦ rw a (get-set_other j key value acc h)
]

merge_inner_other :
    (j key : String) (inner acc : Fields)
    → str_eq key j ≡ false
    → get j (merge_inner key inner acc) ≡ get j acc
merge_inner_other j key no_fields acc h = refl
merge_inner_other j key (field k v rest) acc h =
    get-set_other j key (obj (update (dict_or_empty (get key acc)) (field k v rest))) acc h

merge_field_other :
    (j key : String) (value : Value) (acc : Fields)
    → str_eq key j ≡ false
    → get j (merge_field key value acc) ≡ get j acc
merge_field_other j key (obj inner) acc h =
    merge_inner_other j key (filter_fields (λ _ v. non_empty v) inner) acc h
merge_field_other j key value acc h = keep_or_set_other j key value acc h

pub get-merge_over :
    (k : String) (section acc : Fields)
    → DistinctKeys section
    → get k (merge_over acc section) ≡ merged_with (get k section) (get k acc)
unfolding merge_over
get-merge_over k no_fields acc h = refl
get-merge_over k (field key value section) acc (fresh, h) = elim (Bool-cases (str_eq key k)) [
  | inl a ↦
      let same = (eq_iff key k).0 a in
      let absent : get k section ≡ none = (subst (λ i. get i section ≡ none) same fresh) in
      let here : get k (merge_field key value acc) ≡ merge_value (get k acc) value =
        (subst (λ i. get i (merge_field key value acc) ≡ merge_value (get i acc) value) same
          (merge_field_same key value acc)) in
      rw (a, get-merge_over k section (merge_field key value acc) h, absent, here)
  | inr a ↦ rw (
    a,
    get-merge_over k section (merge_field key value acc) h,
    merge_field_other k key value acc a,
  )
]

-- the value of a section where it is not empty, else the one before it
abbrev pub prefer : Option Value → Option Value → Option Value
prefer new old = or_else (passing non_empty new) old

-- some entry of a dict is not empty
abbrev pub has_entry : Fields → Bool
has_entry no_fields = false
has_entry (field k v fs) = non_empty v || has_entry fs

-- Without such an entry a dict changes nothing; with one, the new value is a dict, merged by its
-- entries.
abbrev pub MergedDict : Bool → Fields → Option Value → Option Value → Type 0
MergedDict false inner old new = new ≡ old
MergedDict true inner old new =
    (merged : Fields) × (new ≡ some (obj merged))
    × ((j : String) → get j merged ≡ prefer (get j inner) (get j (dict_or_empty old)))

-- A dict of a section is merged by its entries, any other value as a whole.
abbrev pub Merged : Option Value → Option Value → Option Value → Type 0
Merged none old new = new ≡ old
Merged (some (obj inner)) old new = MergedDict (has_entry inner) inner old new
Merged (some value) old new = new ≡ prefer (some value) old

-- what pydantic's dumps are: dicts, in which a nested dict is one too
abbrev pub DistinctInner : Option Value → Type 0
DistinctInner (some (obj inner)) = DistinctKeys inner
DistinctInner _ = Unit

abbrev pub AllInner : Fields → Type 0
AllInner no_fields = Unit
AllInner (field k v fs) = DistinctInner (some v) × AllInner fs

abbrev pub SectionShape : Fields → Type 0
SectionShape section = DistinctKeys section × AllInner section

inner_at : (k : String) (fs : Fields) → AllInner fs → DistinctInner (get k fs)
inner_at k no_fields h = tt
inner_at k (field j v fs) (d, h) =
    if_induction DistinctInner (str_eq j k) (some v) (get k fs) (λ _. d) (λ _. inner_at k fs h)

has_entry-filter_fields :
    (fs : Fields)
    → has_entry fs
      ≡ (elim (filter_fields (λ _ v. non_empty v) fs) [ no_fields ↦ false | field k v r ↦ true ])
has_entry-filter_fields no_fields = refl
has_entry-filter_fields (field k v fs) = elim (Bool-cases (non_empty v)) [
  | inl a ↦ rw a refl
  | inr a ↦ rw a (has_entry-filter_fields fs)
]

merge_value-Merged :
    (old : Option Value) (inner kept : Fields)
    → DistinctKeys kept
    → ((j : String) → get j kept ≡ passing non_empty (get j inner))
    → MergedDict
        (elim kept [ no_fields ↦ false | field k v r ↦ true ])
        inner
        old
        (elim kept [
          | no_fields ↦ old
          | field k v rest ↦ some (obj (update (dict_or_empty old) (field k v rest)))
        ])
merge_value-Merged old inner no_fields h e = refl
merge_value-Merged old inner (field k v rest) h e = (
  update (dict_or_empty old) (field k v rest),
  refl,
  λ j.
      get-update j (field k v rest) (dict_or_empty old) h
      ∙ ap (λ o. or_else o (get j (dict_or_empty old))) (e j),
)

prefer_or_keep :
    (old : Option Value) (value : Value)
    → (if is_empty value then old else some value) ≡ prefer (some value) old
prefer_or_keep old value = elim (Bool-cases (is_empty value)) [ inl a ↦ rw a | inr a ↦ rw a ]

merged_with-Merged :
    (new old : Option Value) → DistinctInner new → Merged new old (merged_with new old)
merged_with-Merged none old h = refl
merged_with-Merged (some (obj inner)) old h = rw (has_entry-filter_fields inner) (
    merge_value-Merged old inner (filter_fields (λ _ v. non_empty v) inner)
      (filter_fields-Distinct non_empty inner h) (λ j. get-filter_fields non_empty j inner h))
merged_with-Merged (some value) old h = prefer_or_keep old value

-- Merging a section, whose keys are distinct, over an accumulator gives at every key: the old value
-- where the section has none, an empty one or a dict whose entries are all empty, the section's value
-- where it is any other value but a dict, and for a dict with an entry that is not empty a dict with,
-- entry by entry, the section's entry where that is not empty and the old entry elsewhere.
pub merge_over-Merged :
    (acc section : Fields)
    → SectionShape section
    → (k : String) → Merged (get k section) (get k acc) (get k (merge_over acc section))
merge_over-Merged acc section (distinct, inner) k =
    rw (get-merge_over k section acc distinct)
      (merged_with-Merged (get k section) (get k acc) (inner_at k section inner))
