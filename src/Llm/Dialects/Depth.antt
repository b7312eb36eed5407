-- ===== src/Llm/Dialects/Depth.antt =====
-- How many frames `_inline_refs` needs (backend/app/llm/schema_dialects.py).
use auto_apply.Common.{
  ℕ, zero, suc, ◌+◌, ◌*◌, ◌≤◌, ◌<◌, max, String, true, false, Option, none, some, ◌≡◌, refl, subst,
  Bool-cases, str_eq, inl, inr, arith,
}
use native.Mathlib.Nat.{mul-le-mul_left}
use mathlib.Core.Option.{some-injective}
use auto_apply.Common.Exec.{Outcome, ok, err}
use auto_apply.Json.{Value, obj, arr, Fields, no_fields, field, Items, no_items, item, get}
use auto_apply.Json.Laws.{str_eq_path}
use auto_apply.Llm.Dialects.{
  DialectError, ref_name, dict_of, both, on_ok, map_fields, map_items, follow, inline_dict,
  inline_node, inline_refs,
}

abbrev pub Returned : {A : Type 0} → Outcome DialectError A → Type 0
Returned (ok a) = Unit
Returned (err e) = false ≡ true

abbrev mutual
  pub height : Value → ℕ
  height (obj fs) = suc (height_fields fs)
  height (arr vs) = suc (height_items vs)
  height v = 1

  pub height_fields : Fields → ℕ
  height_fields no_fields = 0
  height_fields (field k v fs) = max (height v) (height_fields fs)

  pub height_items : Items → ℕ
  height_items no_items = 0
  height_items (item v vs) = max (height v) (height_items vs)

module _ (defs : Fields) (rank : String → ℕ) where
  abbrev pub IsDict : Option Value → Type 0
  IsDict (some (obj fs)) = Unit
  IsDict _ = false ≡ true

  -- The name, where there is one, is that of a definition of a rank below `r`.
  abbrev pub NameBelow : ℕ → Option String → Type 0
  NameBelow r none = Unit
  NameBelow r (some name) = (rank name < r) × IsDict (get name defs)

  -- So are the names of all references in a value.
  abbrev mutual
    pub RefersBelow : ℕ → Value → Type 0
    RefersBelow r (obj fs) = NameBelow r (ref_name (get "$ref" fs)) × FieldsRefer r fs
    RefersBelow r (arr vs) = ItemsRefer r vs
    RefersBelow r v = Unit

    pub FieldsRefer : ℕ → Fields → Type 0
    FieldsRefer r no_fields = Unit
    FieldsRefer r (field k v fs) = RefersBelow r v × FieldsRefer r fs

    pub ItemsRefer : ℕ → Items → Type 0
    ItemsRefer r no_items = Unit
    ItemsRefer r (item v vs) = RefersBelow r v × ItemsRefer r vs

  -- Each definition refers to those of a rank below its own, and is not higher than `bound`.
  abbrev pub RankedFields : ℕ → Fields → Type 0
  RankedFields bound no_fields = Unit
  RankedFields bound (field k v fs) =
      (RefersBelow (rank k) v × (height v ≤ bound)) × RankedFields bound fs

both-Returned :
    {A B C : Type 0} (f : A → B → C) (a : Outcome DialectError A) (b : Outcome DialectError B)
    → Returned a
    → Returned b
    → Returned (both f a b)
both-Returned f (ok a) (ok b) h k = tt
both-Returned f (ok a) (err e) h k = k
both-Returned f (err e) b h k = h

pub on_ok-Returned :
    {A B : Type 0} (f : A → B) (a : Outcome DialectError A) → Returned a → Returned (on_ok f a)
on_ok-Returned f (ok a) h = tt
on_ok-Returned f (err e) h = h

height_pos : (v : Value) → 1 ≤ height v
height_pos (obj fs) = omega arith
height_pos (arr vs) = omega arith
height_pos v = omega arith

step_down : (bound a r : ℕ) → a < r → bound + bound * a ≤ bound * r
step_down bound a r h = let p : bound * suc a ≤ bound * r = mul-le-mul_left bound h in omega arith

same_at :
    (defs : Fields) (rank : String → ℕ) (bound : ℕ) (j name : String) (w v : Value)
    → j ≡ name
    → w ≡ v
    → RefersBelow defs rank (rank j) w × (height w ≤ bound)
    → RefersBelow defs rank (rank name) v × (height v ≤ bound)
same_at defs rank bound j name w v p q h =
    let moved = subst (λ x. RefersBelow defs rank (rank x) w × (height w ≤ bound)) p h in
    subst (λ x. RefersBelow defs rank (rank name) x × (height x ≤ bound)) q moved

ranked_at :
    (defs : Fields) (rank : String → ℕ) (bound : ℕ) (name : String) (v : Value) (fs : Fields)
    → RankedFields defs rank bound fs
    → get name fs ≡ some v
    → RefersBelow defs rank (rank name) v × (height v ≤ bound)
ranked_at defs rank bound name v no_fields h e = absurd (cc)
ranked_at defs rank bound name v (field j w fs) (here, later) e =
    elim (Bool-cases (str_eq j name)) [
      | inl a ↦
          same_at defs rank bound j name w v (str_eq_path j name a) (some-injective w v (rw a at e))
            here
      | inr a ↦ ranked_at defs rank bound name v fs later (rw a at e)
    ]

-- One call, where the calls that it makes return.
module _ (defs : Fields) (rank : String → ℕ) (bound depth : ℕ)
    (inline : Value → Outcome DialectError Value)
    (returns : (r : ℕ) (v : Value)
      → RefersBelow defs rank r v
      → height v + bound * r ≤ depth
      → Returned (inline v))
    (ranked : RankedFields defs rank bound defs) where
  fields_return :
      (r : ℕ) (fs : Fields)
      → FieldsRefer defs rank r fs
      → height_fields fs + bound * r ≤ depth
      → Returned (map_fields inline fs)
  fields_return r no_fields h k = tt
  fields_return r (field j v fs) (hv, hf) k =
      both-Returned (field j) (inline v) (map_fields inline fs) (returns r v hv (omega arith))
        (fields_return r fs hf (omega arith))

  items_return :
      (r : ℕ) (vs : Items)
      → ItemsRefer defs rank r vs
      → height_items vs + bound * r ≤ depth
      → Returned (map_items inline vs)
  items_return r no_items h k = tt
  items_return r (item v vs) (hv, hf) k =
      both-Returned item (inline v) (map_items inline vs) (returns r v hv (omega arith))
        (items_return r vs hf (omega arith))

  follow-Returned :
      (r : ℕ) (name : String) (found : Option Value)
      → get name defs ≡ found
      → rank name < r
      → IsDict defs rank found
      → bound * r ≤ depth
      → Returned (follow inline (dict_of name found))
  follow-Returned r name (some (obj d)) e lt is_dict k =
      let (refers, low) = ranked_at defs rank bound name (obj d) defs ranked e in
      let down = step_down bound (rank name) r lt in
      returns (rank name) (obj d) refers (omega arith)
  follow-Returned r name (some v) e lt is_dict k = is_dict
  follow-Returned r name none e lt is_dict k = is_dict

  dict-Returned :
      (r : ℕ) (fs : Fields) (name : Option String)
      → NameBelow defs rank r name
      → FieldsRefer defs rank r fs
      → height_fields fs + bound * r ≤ depth
      → Returned (inline_dict inline (obj defs) fs name)
  dict-Returned r fs none below h k =
      on_ok-Returned obj (map_fields inline fs) (fields_return r fs h k)
  dict-Returned r fs (some name) (lt, is_dict) h k =
      follow-Returned r name (get name defs) refl lt is_dict (omega arith)

  node-Returned :
      (r : ℕ) (v : Value)
      → RefersBelow defs rank r v
      → height v + bound * r ≤ suc depth
      → Returned (inline_node inline (obj defs) v)
  node-Returned r (obj fs) (below, h) k =
      dict-Returned r fs (ref_name (get "$ref" fs)) below h (omega arith)
  node-Returned r (arr vs) h k =
      on_ok-Returned arr (map_items inline vs) (items_return r vs h (omega arith))
  node-Returned r v h k = tt

-- A value returns whose references end, if the depth covers its height and the ranks.
pub inline_refs-Returned :
    (defs : Fields) (rank : String → ℕ) (bound : ℕ)
    → RankedFields defs rank bound defs
    → (depth r : ℕ) (v : Value) → RefersBelow defs rank r v
    → height v + bound * r ≤ depth
    → Returned (inline_refs (obj defs) depth v)
unfolding inline_refs
inline_refs-Returned defs rank bound ranked zero r v h k =
    let p = height_pos v in absurd (omega arith)
inline_refs-Returned defs rank bound ranked (suc depth) r v h k =
    node-Returned defs rank bound depth (inline_refs (obj defs) depth)
      (inline_refs-Returned defs rank bound ranked depth) ranked r v h k
