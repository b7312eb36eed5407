-- ===== src/Auth/Store.antt =====
-- The tables of the auth component (backend/app/db/repositories/auth_repository.py, db/migrations
-- 001 and 026) and their operations. Row-level security is the test on the user's id; `now` stands
-- for SQL's NOW() and for the service's clock alike.
use auto_apply.Common.{
  ℕ, String, Bool, true, false, ◌&&◌, ◌||◌, Option, none, some, List, [], ◌∷◌, ◌++◌, map, ltb, ◌==◌,
  str_eq, if◌then◌else◌, find_first, any_of, Text, text_eq,
}
use auto_apply.Common.Exec.{Exec, ok, err}
use auto_apply.Json.{Value, str}
use auto_apply.Llm.Store.{SettingRow, AuditRow}

pub record User : Type 0 where
  pub id : ℕ
  pub email : Text
  pub password_hash : String
  pub name : Text
  pub created_at : ℕ

pub record Session : Type 0 where
  pub user_id : ℕ
  pub jti_hash : String
  pub expires_at : ℕ
  pub revoked_at : Option ℕ

pub record Accounts : Type 0 where
  pub users : List User
  pub sessions : List Session
  pub settings : List SettingRow
  pub audits : List AuditRow

-- the exceptions of backend/app/auth/errors.py, and those of psycopg and `uuid.UUID`
pub data AuthError : Type 0 where
  validation_error weak_password user_exists invalid_credentials token_expired token_invalid :
      AuthError
  unique_violation value_error : AuthError

-- `auth_user_by_email`, the one look-up outside row-level security
unfoldable pub find_by_email : Text → Accounts → Option User
find_by_email email w = find_first (λ u. text_eq u.email email) w.users

unfoldable pub get_user_by_id : ℕ → Accounts → Option User
get_user_by_id user_id w = find_first (λ u. u.id == user_id) w.users

-- `users.id` is the primary key, `users.email` is UNIQUE
unfoldable pub create_user : User → Exec Accounts AuthError (Unit {0})
create_user u w =
    if any_of (λ v. v.id == u.id || text_eq v.email u.email) w.users
    then (err unique_violation, w)
    else (ok tt, record w { users = w.users ++ u ∷ [] })

abbrev pub upsert_row : ℕ → String → Value → List SettingRow → List SettingRow
upsert_row user_id key value [] = record { user_id = user_id; key = key; value = value } ∷ []
upsert_row user_id key value (r ∷ rows) =
    if r.user_id == user_id && str_eq r.key key
    then record r { value = value } ∷ rows
    else r ∷ upsert_row user_id key value rows

-- `ON CONFLICT (user_id, key) DO UPDATE`
unfoldable pub upsert_setting : ℕ → String → Value → Accounts → Accounts
upsert_setting user_id key value w = record w { settings = upsert_row user_id key value w.settings }

unfoldable pub seed_default_settings : ℕ → Accounts → Accounts
unfolding upsert_setting
seed_default_settings user_id w =
    upsert_setting user_id "theme" (str "dark") (upsert_setting user_id "chat_mode" (str "bot") w)

unfoldable pub insert_session : ℕ → String → ℕ → Accounts → Accounts
insert_session user_id jti_hash expires_at w = record w {
  sessions =
      w.sessions
      ++ record {
        user_id = user_id;
        jti_hash = jti_hash;
        expires_at = expires_at;
        revoked_at = none;
      }
        ∷ [];
}

abbrev pub is_none {ℓ} : {A : Type ℓ} → Option A → Bool
is_none none = true
is_none (some a) = false

-- `jti_hash = … AND revoked_at IS NULL AND expires_at > NOW()`, on the user's own rows
abbrev pub is_active_session : ℕ → String → ℕ → Session → Bool
is_active_session user_id jti_hash now s =
    s.user_id == user_id
    && str_eq s.jti_hash jti_hash
    && is_none s.revoked_at
    && ltb now s.expires_at

abbrev pub revoke_row : ℕ → String → ℕ → Session → Session
revoke_row user_id jti_hash now s =
    if is_active_session user_id jti_hash now s then record s { revoked_at = some now } else s

-- Whether a row matched, and the table without its active rows of that hash.
unfoldable pub revoke_active_session : ℕ → String → ℕ → Accounts → Bool × Accounts
revoke_active_session user_id jti_hash now w = (
  any_of (is_active_session user_id jti_hash now) w.sessions,
  record w { sessions = map (revoke_row user_id jti_hash now) w.sessions },
)

unfoldable pub insert_auth_audit : AuditRow → Accounts → Accounts
insert_auth_audit row w = record w { audits = w.audits ++ row ∷ [] }
