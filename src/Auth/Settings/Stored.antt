-- ===== src/Auth/Settings/Stored.antt =====
-- What the settings table holds after an update.
use auto_apply.Common.{
  ℕ, String, ◌≡◌, refl, true, ◌&&◌, none, List, [], ◌∷◌, ◌==◌, str_eq, eq_iff, All, Bool-cases,
  Option-cases, inl, inr, arith,
}
use auto_apply.Json.{Value}
use auto_apply.Llm.Store.{SettingRow}
use auto_apply.Auth.Store.{Accounts, upsert_row, upsert_setting, insert_auth_audit}
use auto_apply.Auth.Settings.{
  Entries, is_valid, first_invalid, unknown_keys, upsert_all, update_settings,
}

-- Every stored value is one that its key allows.
abbrev pub IsValidTable : List SettingRow → Type 0
IsValidTable rows = All (λ r. is_valid (r.key, r.value) ≡ true) rows

abbrev AllValid : Entries → Type 0
AllValid updates = All (λ e. is_valid e ≡ true) updates

first_invalid-AllValid : (updates : Entries) → first_invalid updates ≡ none → AllValid updates
first_invalid-AllValid [] e = tt
first_invalid-AllValid (u ∷ updates) e = elim (Bool-cases (is_valid u)) [
  | inl a ↦ (a, first_invalid-AllValid updates (rw a at e))
  | inr a ↦ let bad = (rw a at e) in cc
]

upsert_row-IsValidTable :
    (user_id : ℕ) (key : String) (value : Value) (rows : List SettingRow)
    → is_valid (key, value) ≡ true
    → IsValidTable rows
    → IsValidTable (upsert_row user_id key value rows)
upsert_row-IsValidTable user_id key value [] v h = (v, tt)
upsert_row-IsValidTable user_id key value (r ∷ rows) v (p, h) =
    elim (Bool-cases (r.user_id == user_id && str_eq r.key key)) [
      | inr b ↦ rw b (p, upsert_row-IsValidTable user_id key value rows v h)
      | inl b ↦ let same : r.key ≡ key = (eq_iff r.key key).0 (ground arith) in rw b (rw same v, h)
    ]

upsert_all-IsValidTable :
    (user_id : ℕ) (updates : Entries) (w : Accounts)
    → AllValid updates
    → IsValidTable w.settings
    → IsValidTable (upsert_all user_id updates w).settings
unfolding upsert_all upsert_setting
upsert_all-IsValidTable user_id [] w v h = h
upsert_all-IsValidTable user_id ((key, value) ∷ rest) w (p, v) h =
    upsert_all-IsValidTable user_id rest (upsert_setting user_id key value w) v
      (upsert_row-IsValidTable user_id key value w.settings p h)

-- An update, accepted or refused, leaves only values that their keys allow, if there were no others.
pub update_settings-IsValidTable :
    (user_id : ℕ) (updates : Entries) (w : Accounts)
    → IsValidTable w.settings
    → IsValidTable (update_settings user_id updates w).1.settings
unfolding update_settings insert_auth_audit
update_settings-IsValidTable user_id updates w h = go (unknown_keys updates) refl
  where
    go :
        (unknown : List String)
        → unknown_keys updates ≡ unknown
        → IsValidTable (update_settings user_id updates w).1.settings
    go [] e = elim (Option-cases (first_invalid updates)) [
      | inl f ↦
          rw (e, f) (upsert_all-IsValidTable user_id updates w (first_invalid-AllValid updates f) h)
      | inr ((key, value), f) ↦ rw (e, f) h
    ]
    go (k ∷ ks) e = rw e h
