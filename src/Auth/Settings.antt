-- ===== src/Auth/Settings.antt =====
-- `SettingsService` (backend/app/auth/settings_service.py). A dict is a list of its entries, in
-- their order; the strings among the values are held as `str`.
pub mod Stored
use Prim.Native.String
use Prim.Native.Nat.{Ordering}
use auto_apply.Common.{
  ℕ, String, Bool, true, false, not, ◌&&◌, Option, none, some, List, [], ◌∷◌, map, leb, ◌==◌,
  str_eq, one_of, keep, find_first, is_some, if◌then◌else◌,
}
use auto_apply.Common.Sort.{sort_by}
use auto_apply.Common.Exec.{Exec, pure, raise, modify, gets, ◌>>=◌, ◌>>◌}
use auto_apply.Json.{Value, str, int, bool, arr, obj, field, no_fields, pos, Items, no_items, item}
use auto_apply.Llm.Registry.{registered_names, look_up}
use auto_apply.Llm.Store.{SettingRow, AuditRow}
use auto_apply.Llm.Router.Resolve.{default_chain}
use auto_apply.Llm.Router.Exhaust.{name_values}
use auto_apply.Auth.Store.{Accounts, upsert_setting, insert_auth_audit}

-- the keys refused, or the key whose value is refused
pub data SettingsError : Type 0 where
  key_invalid : List String → SettingsError
  value_invalid : String → SettingsError

abbrev pub Entries : Type 0
Entries = List (String × Value)

abbrev pub valid_int_ranged : ℕ → ℕ → Value → Bool
valid_int_ranged lo hi (int (pos n)) = leb lo n && leb n hi
valid_int_ranged lo hi _ = false

abbrev pub valid_choice : List String → Value → Bool
valid_choice choices (str s) = one_of s choices
valid_choice choices _ = false

abbrev pub valid_bool : Value → Bool
valid_bool (bool b) = true
valid_bool _ = false

abbrev pub all_registered : Items → Bool
all_registered no_items = true
all_registered (item (str s) vs) = one_of s registered_names && all_registered vs
all_registered (item _ vs) = false

abbrev pub valid_llm_chain : Value → Bool
valid_llm_chain (arr (item v vs)) = all_registered (item v vs)
valid_llm_chain _ = false

abbrev pub settings_spec : List (String × ((Value → Bool) × Value))
settings_spec =
    ("chat_mode", (valid_choice ("bot" ∷ "agent" ∷ []), str "bot"))
    ∷ ("theme", (valid_choice ("dark" ∷ "light" ∷ []), str "dark"))
    ∷ ("auto_approve_threshold", (valid_int_ranged 0 100, int (pos 80)))
    ∷ ("notifications_enabled", (valid_bool, bool true))
    ∷ ("llm_chain", (valid_llm_chain, arr (name_values default_chain)))
    ∷ []

abbrev pub defaults : Entries
defaults = map (λ e. (e.0, e.1.1)) settings_spec

-- `merged[key] = value`
abbrev pub put_entry : String → Value → Entries → Entries
put_entry key value [] = (key, value) ∷ []
put_entry key value ((k, v) ∷ rest) =
    if str_eq k key then (k, value) ∷ rest else (k, v) ∷ put_entry key value rest

unfoldable pub own_rows : ℕ → List SettingRow → List SettingRow
own_rows user_id rows = keep (λ r. r.user_id == user_id) rows

-- the loop of `get`: a row of an unknown key is left out
unfoldable pub merge_known : List SettingRow → Entries → Entries
merge_known [] merged = merged
merge_known (r ∷ rows) merged =
    merge_known rows
      (if is_some (look_up r.key merged) then put_entry r.key r.value merged else merged)

-- the loop of `update`
unfoldable pub merge_all : List SettingRow → Entries → Entries
merge_all [] merged = merged
merge_all (r ∷ rows) merged = merge_all rows (put_entry r.key r.value merged)

unfoldable pub get_settings_for : ℕ → Accounts → Entries
unfolding merge_known own_rows
get_settings_for user_id w = merge_known (own_rows user_id w.settings) defaults

abbrev pub unknown_keys : Entries → List String
unknown_keys updates =
    map (λ e. e.0) (keep (λ e. not (is_some (look_up e.0 settings_spec))) updates)

abbrev pub is_valid : String × Value → Bool
is_valid (key, value) = elim (look_up key settings_spec) [ none ↦ false | some s ↦ s.0 value ]

-- the first key whose value is refused
abbrev pub first_invalid : Entries → Option (String × Value)
first_invalid updates = find_first (λ e. not (is_valid e)) updates

abbrev pub refuse_unknown : List String → Exec Accounts SettingsError (Unit {0})
refuse_unknown [] = pure tt
refuse_unknown (k ∷ ks) = raise (key_invalid (k ∷ ks))

abbrev pub refuse_invalid : Option (String × Value) → Exec Accounts SettingsError (Unit {0})
refuse_invalid none = pure tt
refuse_invalid (some (key, value)) = raise (value_invalid key)

unfoldable pub upsert_all : ℕ → Entries → Accounts → Accounts
upsert_all user_id [] w = w
upsert_all user_id ((key, value) ∷ rest) w =
    upsert_all user_id rest (upsert_setting user_id key value w)

abbrev pub string_leb : String → String → Bool
string_leb a b = elim (String.compare a b) [ Ordering.gt ↦ false | _ ↦ true ]

abbrev pub updated_audit : ℕ → Entries → AuditRow
updated_audit user_id validated = record {
  user_id = user_id;
  action = "settings_updated";
  resource_type = "settings";
  resource_id = none;
  ip_address = none;
  details =
      obj (
        field "keys" (arr (name_values (sort_by string_leb (map (λ e. e.0) validated)))) no_fields);
}

unfoldable pub update_settings : ℕ → Entries → Exec Accounts SettingsError Entries
unfolding upsert_all merge_all own_rows
update_settings user_id updates = do
  refuse_unknown (unknown_keys updates)
  refuse_invalid (first_invalid updates)
  modify (upsert_all user_id updates)
  modify (insert_auth_audit (updated_audit user_id updates))
  rows ← gets (λ w. own_rows user_id w.settings)
  pure (merge_all rows defaults)
