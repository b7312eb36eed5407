-- ===== src/Llm/Providers/Listed.antt =====
-- Which providers are listed after one is added or removed.
use auto_apply.Common.{
  ℕ, String, ◌≡◌, refl, Bool, false, not, ◌&&◌, ◌||◌, Option, none, some, List, [], ◌∷◌, ◌++◌, ◌==◌,
  str_eq, str_eq_refl, keep, find_first, length, All, All-append, arith, Bool-cases, Option-cases,
  inl, inr, leb, is_empty_text,
}
use auto_apply.Common.Exec.{Outcome, ok, err, continue, settle}
use auto_apply.Json.{ℤ}
use auto_apply.Llm.Registry.{spec_for}
use auto_apply.Llm.Store.{ProviderRow, World, rollback}
use auto_apply.Llm.Providers.{
  Texts, ServiceError, ProviderOut, is_row, get_provider, delete_row, count_providers_by_name,
  store_provider, add_provider, delete_provider, given_or, has_key, sealed, row_for, add_row,
  to_out,
}

find_first-keep {ℓ} :
    {A : Type ℓ} (p : A → Bool) (l : List A) → find_first p (keep (λ x. not (p x)) l) ≡ none
find_first-keep p [] = refl
find_first-keep p (x ∷ l) = elim (Bool-cases (p x)) [
  | inl e ↦ rw e (find_first-keep p l)
  | inr e ↦ rw e (rw e (find_first-keep p l))
]

-- When a provider of the user is there, its removal leaves neither the provider nor its breaker.
pub delete_provider-get_provider :
    (user_id provider_id : ℕ) (w : World) (row : ProviderRow)
    → get_provider user_id provider_id w ≡ some row
    → (get_provider user_id provider_id (delete_provider user_id provider_id w).1 ≡ none)
      × ((delete_provider user_id provider_id w).1.breakers user_id row.name ≡ none)
unfolding delete_provider delete_row get_provider
delete_provider-get_provider user_id provider_id w row e =
    rw e (
      find_first-keep (is_row user_id provider_id) w.providers,
      ground (arith, str_eq_refl row.name),
    )

module _ (texts : Texts) where
  -- Two rows of one user whose names are equal up to case.
  abbrev pub clash : ProviderRow → ProviderRow → Bool
  clash u v = str_eq (texts.lower v.name) (texts.lower u.name) && v.user_id == u.user_id

  abbrev pub IsDistinct : List ProviderRow → Type 0
  IsDistinct [] = Unit
  IsDistinct (r ∷ l) = All (λ v. clash v r ≡ false) l × IsDistinct l

  append-IsDistinct :
      (l : List ProviderRow) (r : ProviderRow)
      → IsDistinct l
      → length
          (keep (λ v. str_eq (texts.lower v.name) (texts.lower r.name) && v.user_id == r.user_id) l)
        ≡ 0
      → IsDistinct (l ++ r ∷ [])
  append-IsDistinct [] r d e = (tt, tt)
  append-IsDistinct (v ∷ l) r (p, d) e =
      elim (Bool-cases
        (str_eq (texts.lower v.name) (texts.lower r.name) && v.user_id == r.user_id)) [
          | inl a ↦ let bad = (rw a at e) in cc
          | inr a ↦ (
            All-append (λ x. clash x v ≡ false) l (r ∷ []) p (a, tt),
            append-IsDistinct l r d (rw a at e),
          )
        ]

  store_provider-IsDistinct :
      (row : ProviderRow) (k : Bool) (w : World)
      → IsDistinct w.providers
      → IsDistinct (settle rollback w (store_provider texts row k w)).1.providers
  unfolding store_provider count_providers_by_name
  store_provider-IsDistinct row k w d =
      elim (Bool-cases (leb 1 (count_providers_by_name texts row.user_id row.name w))) [
        | inl a ↦ rw a d
        | inr a ↦ rw a (append-IsDistinct w.providers row d (ground arith))
      ]

  continued-IsDistinct :
      (x : ProviderOut) (o : Outcome ServiceError Unit × World)
      → IsDistinct o.1.providers
      → IsDistinct (continue o.0 (λ _ v. (ok x, v)) o.1).1.providers
  continued-IsDistinct x (ok a, v) d = d
  continued-IsDistinct x (err e, v) d = d

  add_row-IsDistinct :
      (row : ProviderRow) (k : Bool) (w : World)
      → IsDistinct w.providers
      → IsDistinct (add_row texts row k w).1.providers
  unfolding add_row
  add_row-IsDistinct row k w d =
      continued-IsDistinct (to_out row) (settle rollback w (store_provider texts row k w))
        (store_provider-IsDistinct row k w d)

  -- Adding a provider, also where it raises, leaves no two providers of a user whose names are equal
  -- up to case, if there were none.
  pub add_provider-IsDistinct :
      (new_id now user_id : ℕ) (name : String) (base_url model api_key : Option String)
      (priority : ℤ) (w : World)
      → IsDistinct w.providers
      → IsDistinct
          (add_provider texts new_id now user_id name base_url model api_key priority w).1.providers
  unfolding add_provider
  add_provider-IsDistinct new_id now user_id name base_url model api_key priority w d =
      elim (Option-cases (spec_for (texts.lower (texts.strip name)))) [
        | inl a ↦ rw a d
        | inr (spec, a) ↦
            let b = given_or texts.strip base_url spec.default_base_url in
            let m = given_or texts.strip model spec.default_model in
            elim (Bool-cases (is_empty_text b || is_empty_text m)) [
              | inl c ↦ rw (a, c) d
              | inr c ↦
                  rw (a, c)
                    (go
                      (row_for texts new_id now user_id (texts.lower (texts.strip name)) b m
                        priority)
                      (sealed texts api_key))
            ]
      ]
    where
      go :
          (row : Option String → ProviderRow) (o : Outcome ServiceError (Option String))
          → IsDistinct (continue o (λ key. add_row texts (row key) (has_key api_key)) w).1.providers
      go row (ok key) = add_row-IsDistinct (row key) (has_key api_key) w d
      go row (err e) = d
