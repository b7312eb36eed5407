-- ===== src/Llm/Dialects/Explicit.antt =====
-- The schemas that the providers are sent (backend/app/llm/schema_dialects.py).
use auto_apply.Common.{
  ℕ, String, List, true, false, Option, none, some, ◌+◌, ◌*◌, ◌≤◌, ◌∷◌, [], ◌≡◌, refl, ◌∙◌, ap,
  str_eq,
}
use auto_apply.Common.Exec.{Outcome, ok, err}
use auto_apply.Json.{Value, bool, arr, obj, Fields, get, set, keys, from_names}
use auto_apply.Json.Laws.{get-set_same, get-set_other}
use auto_apply.Llm.Dialects.{
  DialectError, ref_name, on_ok, inline_refs, inlined, walk, walk_fields, drop_fields, defs_of,
  drop_for_gemini, require_all, strictify, gemini_response_schema, openai_compatible_schema,
}
use auto_apply.Llm.Dialects.Depth.{
  Returned, height, RankedFields, RefersBelow, inline_refs-Returned,
}
use auto_apply.Llm.Dialects.Inlined.{IfOk, Everywhere, EachField, NoRef, inline_refs-NoRef}
use auto_apply.Llm.Dialects.Walk.{
  walk_fields-ref, walk-Everywhere, get-drop_kept, get-drop_gone, drop-Each, set-Each,
}

-- what Gemini refuses in a dict is not there
abbrev pub IsExplicit : Fields → Type 0
IsExplicit fs = (get "$defs" fs ≡ none) × (get "additionalProperties" fs ≡ none) × NoRef fs

-- Where `properties` is a dict, all of them are required and there are no others.
abbrev pub RequiresAll : Option Value → Fields → Type 0
RequiresAll (some (obj props)) fs =
    (get "additionalProperties" fs ≡ some (bool false))
    × (get "required" fs ≡ some (arr (from_names (keys props))))
RequiresAll _ fs = Unit

abbrev pub IsStrict : Fields → Type 0
IsStrict fs =
    ((get "$defs" fs ≡ none) × (get "default" fs ≡ none) × NoRef fs)
    × RequiresAll (get "properties" fs) fs

-- The call returns a value of which `P` holds.
abbrev pub Yields : (Value → Type 0) → Outcome DialectError Value → Type 0
Yields P (ok v) = P v
Yields P (err e) = false ≡ true

drop_for_gemini-IsExplicit :
    (fs : Fields)
    → NoRef fs
    → EachField IsExplicit (walk_fields drop_for_gemini fs)
    → IsExplicit (drop_for_gemini (walk_fields drop_for_gemini fs))
      × EachField IsExplicit (drop_for_gemini (walk_fields drop_for_gemini fs))
drop_for_gemini-IsExplicit fs h g =
    let dropped = "additionalProperties" ∷ [] in
    let rest = walk_fields drop_for_gemini fs in
    (
      (
        get-drop_gone dropped "$defs" rest refl,
        get-drop_gone dropped "additionalProperties" rest refl,
        ap ref_name (get-drop_kept dropped "$ref" rest refl)
            ∙ walk_fields-ref drop_for_gemini "$ref" fs
            ∙ h,
      ),
      drop-Each IsExplicit dropped rest g,
    )

no_inner : (P : Fields → Type 0) (l : List String) → Everywhere P (arr (from_names l))
no_inner P [] = tt
no_inner P (s ∷ l) = (tt, no_inner P l)

-- the two assignments of `strictify` leave the other keys alone
get-closed :
    (k : String) (names : Value) (node : Fields)
    → str_eq "required" k ≡ false
    → str_eq "additionalProperties" k ≡ false
    → get k (set "required" names (set "additionalProperties" (bool false) node)) ≡ get k node
get-closed k names node h g =
    let first = get-set_other k "additionalProperties" (bool false) node g in
    get-set_other k "required" names (set "additionalProperties" (bool false) node) h ∙ first

require_all-IsStrict :
    (o : Option Value) (node : Fields)
    → get "properties" node ≡ o
    → (get "$defs" node ≡ none) × (get "default" node ≡ none) × NoRef node
    → EachField IsStrict node
    → IsStrict (require_all o node) × EachField IsStrict (require_all o node)
require_all-IsStrict (some (obj props)) node e (d, f, r) g =
    let names = arr (from_names (keys props)) in
    let closed = set "additionalProperties" (bool false) node in
    let properties = get-closed "properties" names node refl refl ∙ e in
    let closes : get "additionalProperties" (set "required" names closed) ≡ some (bool false) =
      get-set_other "additionalProperties" "required" names closed refl
      ∙ get-set_same "additionalProperties" (bool false) node in
    (
      (
        (
          get-closed "$defs" names node refl refl ∙ d,
          get-closed "default" names node refl refl ∙ f,
          ap ref_name (get-closed "$ref" names node refl refl) ∙ r,
        ),
        rw properties (closes, get-set_same "required" names closed),
      ),
      set-Each IsStrict "required" names closed (no_inner IsStrict (keys props))
          (set-Each IsStrict "additionalProperties" (bool false) node tt g),
    )
require_all-IsStrict (some v) node e h g = ((h, rw e tt), g)
require_all-IsStrict none node e h g = ((h, rw e tt), g)

strictify-IsStrict :
    (fs : Fields)
    → NoRef fs
    → EachField IsStrict (walk_fields strictify fs)
    → IsStrict (strictify (walk_fields strictify fs))
      × EachField IsStrict (strictify (walk_fields strictify fs))
strictify-IsStrict fs h g =
    let dropped = "default" ∷ [] in
    let rest = walk_fields strictify fs in
    require_all-IsStrict (get "properties" (drop_fields dropped rest)) (drop_fields dropped rest)
      refl
      (
        get-drop_gone dropped "$defs" rest refl,
        get-drop_gone dropped "default" rest refl,
        ap ref_name (get-drop_kept dropped "$ref" rest refl)
            ∙ walk_fields-ref strictify "$ref" fs
            ∙ h,
      )
      (drop-Each IsStrict dropped rest g)

walk-Yields :
    (fn : Fields → Fields) (P : Fields → Type 0) (o : Outcome DialectError Value)
    → ((v : Value) → Everywhere NoRef v → Everywhere P (walk fn v))
    → Returned o
    → IfOk (Everywhere NoRef) o
    → Yields (Everywhere P) (on_ok (walk fn) o)
walk-Yields fn P (ok v) f h k = f v k
walk-Yields fn P (err e) f h k = h

module _ (schema defs : Fields) (rank : String → ℕ) (bound r depth : ℕ)
    (own : defs_of (get "$defs" schema) ≡ obj defs) (ranked : RankedFields defs rank bound defs)
    (refers : RefersBelow defs rank r (obj schema))
    (deep : height (obj schema) + bound * r ≤ depth) where
  -- The references resolve within the depth.
  inlined-Returned : Returned (inlined depth schema)
  unfolding inline_refs
  inlined-Returned =
      rw own (inline_refs-Returned defs rank bound ranked depth r (obj schema) refers deep)

  inlined-NoRef : IfOk (Everywhere NoRef) (inlined depth schema)
  inlined-NoRef = inline_refs-NoRef (defs_of (get "$defs" schema)) depth (obj schema)

  -- If every reference of a schema names a definition of a lower rank that is a dict, and the
  -- frames cover the heights of the schema and of its chains of definitions, then the schema
  -- for Gemini is returned, and no dict in it, at any depth, has the key `$defs` or
  -- `additionalProperties` or is a reference to a definition.
  pub gemini_response_schema-IsExplicit :
      Yields (Everywhere IsExplicit) (gemini_response_schema depth schema)
  unfolding gemini_response_schema
  gemini_response_schema-IsExplicit =
      walk-Yields drop_for_gemini IsExplicit (inlined depth schema)
        (walk-Everywhere drop_for_gemini NoRef IsExplicit drop_for_gemini-IsExplicit)
        inlined-Returned inlined-NoRef

  -- If every reference of a schema names a definition of a lower rank that is a dict, and the
  -- frames cover the heights of the schema and of its chains of definitions, then the schema
  -- for the OpenAI-compatible providers is returned: no dict in it has the key `$defs` or
  -- `default` or is a reference to a definition, and every dict whose `properties` is a dict
  -- requires exactly those properties and has `additionalProperties` set to `false`.
  pub openai_compatible_schema-IsStrict :
      Yields (Everywhere IsStrict) (openai_compatible_schema depth schema)
  unfolding openai_compatible_schema
  openai_compatible_schema-IsStrict =
      walk-Yields strictify IsStrict (inlined depth schema)
        (walk-Everywhere strictify NoRef IsStrict strictify-IsStrict) inlined-Returned inlined-NoRef
