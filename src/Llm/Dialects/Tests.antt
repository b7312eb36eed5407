-- ===== src/Llm/Dialects/Tests.antt =====
-- The dialects on small schemas.
use auto_apply.Common.{ℕ, String, false, str_eq, arith, if◌then◌else◌, ◌≡◌, refl, [], ◌∷◌}
use auto_apply.Common.Exec.{ok, err}
use auto_apply.Json.{Value, bool, str, arr, obj, Fields, no_fields, field, from_names}
use auto_apply.Llm.Dialects.{
  recursion_error, key_error, gemini_response_schema, openai_compatible_schema,
}
use auto_apply.Llm.Dialects.Depth.{RankedFields, RefersBelow}
use auto_apply.Llm.Dialects.Inlined.{Everywhere}
use auto_apply.Llm.Dialects.Explicit.{
  IsExplicit, IsStrict, Yields, gemini_response_schema-IsExplicit,
  openai_compatible_schema-IsStrict,
}

abbrev text_type : Value
text_type = obj (field "type" (str "string") no_fields)

abbrev ref_to : String → Value
ref_to ref = obj (field "$ref" (str ref) no_fields)

abbrev one_field : String → Value → Fields
one_field name v = field "properties" (obj (field name v no_fields)) no_fields

abbrev with_defs : Value → Fields
with_defs definition =
    field "$defs" (obj (field "Tag" definition no_fields)) (one_field "tag" (ref_to "#/$defs/Tag"))

gemini_inlined :
    gemini_response_schema 5 (with_defs text_type) ≡ ok (obj (one_field "tag" text_type))
unfolding gemini_response_schema
gemini_inlined = refl

openai_inlined :
    openai_compatible_schema 5 (with_defs text_type)
    ≡ ok (
        obj (
          field "properties" (obj (field "tag" text_type no_fields)) (
            field "additionalProperties"
              (bool false)
              (field "required" (arr (from_names ("tag" ∷ []))) no_fields))))
unfolding openai_compatible_schema
openai_inlined = refl

-- a definition that refers to itself
circle : gemini_response_schema 40 (with_defs (ref_to "#/$defs/Tag")) ≡ err recursion_error
unfolding gemini_response_schema
circle = refl

unknown_name :
    gemini_response_schema 5 (one_field "tag" (ref_to "#/$defs/Tag")) ≡ err (key_error "Tag")
unfolding gemini_response_schema
unknown_name = refl

-- A property that is named `default` is lost, and is not required.
property_default :
    openai_compatible_schema 5 (one_field "default" text_type)
    ≡ ok (
        obj (
          field "properties" (obj no_fields) (
            field "additionalProperties"
              (bool false)
              (field "required" (arr (from_names [])) no_fields))))
unfolding openai_compatible_schema
property_default = refl

-- A posting has a tag: one definition refers to the other.
abbrev posting_defs : Fields
posting_defs =
    field "Posting" (obj (one_field "tag" (ref_to "#/$defs/Tag"))) (field "Tag" text_type no_fields)

abbrev posting_schema : Fields
posting_schema = field "$defs" (obj posting_defs) (one_field "posting" (ref_to "#/$defs/Posting"))

abbrev posting_rank : String → ℕ
posting_rank name = if str_eq name "Posting" then 1 else 0

posting_defs-RankedFields : RankedFields posting_defs posting_rank 4 posting_defs
posting_defs-RankedFields = (
  ((tt, ((tt, (((omega arith, tt), (tt, tt)), tt)), tt)), omega arith),
  (((tt, (tt, tt)), omega arith), tt),
)

posting_schema-RefersBelow : RefersBelow posting_defs posting_rank 2 (obj posting_schema)
posting_schema-RefersBelow = (
  tt,
  (
    (tt, ((tt, ((tt, (((omega arith, tt), (tt, tt)), tt)), tt)), ((tt, (tt, tt)), tt))),
    ((tt, (((omega arith, tt), (tt, tt)), tt)), tt),
  ),
)

gemini_response_schema-IsExplicit_example :
    Yields (Everywhere IsExplicit) (gemini_response_schema 14 posting_schema)
gemini_response_schema-IsExplicit_example =
    gemini_response_schema-IsExplicit posting_schema posting_defs posting_rank 4 2 14 refl
      posting_defs-RankedFields posting_schema-RefersBelow (omega arith)

openai_compatible_schema-IsStrict_example :
    Yields (Everywhere IsStrict) (openai_compatible_schema 14 posting_schema)
openai_compatible_schema-IsStrict_example =
    openai_compatible_schema-IsStrict posting_schema posting_defs posting_rank 4 2 14 refl
      posting_defs-RankedFields posting_schema-RefersBelow (omega arith)
