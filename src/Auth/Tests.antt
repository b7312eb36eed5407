-- ===== src/Auth/Tests.antt =====
-- Runs of the auth service on sample accounts.

use Prim.Native.Char.{Char}
use auto_apply.Common.{
  ℕ, zero, suc, String, ◌≡◌, ◌≢◌, refl, true, false, ◌||◌, Option, none, some, [], ◌∷◌, codes,
  arith, is_empty_text, str_eq, eq_iff, Bool-cases, inl, inr,
}
use auto_apply.Common.Exec.{ok}
use auto_apply.Llm.JsonText.{between, strip, drop_while, drop_end}
use auto_apply.Auth.Store.{
  User, Session, Accounts, find_by_email, get_user_by_id, revoke_active_session, insert_session,
  create_user, seed_default_settings, upsert_setting, insert_auth_audit,
}
use auto_apply.Auth.Tokens.{
  Crypto, Claims, payload, refresh_subject, decode_token, create_refresh_token,
}
use auto_apply.Auth.Policy.{
  email_is_valid, check_password_policy, after_last_at, first_line, one_line,
}
use auto_apply.Auth.Service.{
  RefreshResult, register, register_new, login, refresh, rotate, logout, result_for, tokens_for,
  new_user, normalised,
}
use auto_apply.Auth.Accounts.{IsUnique, register-IsUnique, register-login}
use auto_apply.Auth.Failures.{Restores, failed-Restores}
use auto_apply.Auth.RoundTrip.{ReadsBack, login-refresh}
use auto_apply.Auth.Rotation.{Steady, Refused, refresh_once, refresh_after_logout}
use auto_apply.Auth.Steps.{done}
use auto_apply.Json.{str, int, pos}
use auto_apply.Auth.Settings.{Entries, update_settings}
use auto_apply.Auth.Settings.Stored.{IsValidTable, update_settings-IsValidTable}

abbrev unary : ℕ → String
unary zero = String.◌∷◌ "x" String.[]
unary (suc n) = String.◌∷◌ "x" (unary n)

abbrev counted : String → Option ℕ
counted String.[] = none
counted (String.◌∷◌ c String.[]) = some 0
counted (String.◌∷◌ c (String.◌∷◌ d s)) = elim (counted (String.◌∷◌ d s)) [
  | none ↦ none
  | some n ↦ some (suc n)
]

-- a token is its subject, and every token is for the session "j1"
abbrev claims_of : String → Claims
claims_of token = record { sub = token; email = none; typ = "refresh"; jti = some "j1" }

abbrev toy : Crypto
toy = record {
  jwt_encode = λ c iat exp. c.sub;
  jwt_decode = λ now token. payload (claims_of token);
  uuid_text = unary;
  uuid_read = counted;
  sha256_hex = λ s. s;
  hashpw = λ salt password. salt;
  checkpw = λ password hash. true;
  lower = λ s. s;
  is_word = λ c. between 48 57 c || between 65 90 c || between 97 122 c;
  is_digit = between 48 57;
}

abbrev account : User
account = record {
  id = 2;
  email = codes "a@b.c";
  password_hash = "salt";
  name = codes "Ann";
  created_at = 0;
}

abbrev session : Session
session = record { user_id = 2; jti_hash = "j1"; expires_at = 5000; revoked_at = none }

abbrev accounts : Accounts
accounts = record { users = account ∷ []; sessions = session ∷ []; settings = []; audits = [] }

abbrev nobody : Accounts
nobody = record { users = []; sessions = []; settings = []; audits = [] }

toy-Steady : Steady toy
toy-Steady token now later c d x y = cc

j2-ne-j1 : toy.sha256_hex "j2" ≢ toy.sha256_hex "j1"
j2-ne-j1 e = let x : str_eq "j2" "j1" ≡ true = (eq_iff "j2" "j1").1 e in cc

presented : refresh_subject toy 1000 "xxx" ≡ ok (2, "j1")
unfolding refresh_subject decode_token
presented = refl

refreshed_once : (refresh toy 1000 "j2" "xxx" accounts).0 ≡ ok (tokens_for toy 1000 2 "j2" account)
unfolding refresh rotate refresh_subject decode_token revoke_active_session insert_session
    get_user_by_id
refreshed_once = refl

refresh_once_example : Refused toy 2000 "j3" "xxx" (refresh toy 1000 "j2" "xxx" accounts).1
refresh_once_example =
    refresh_once toy toy-Steady 1000 2000 2 "j1" "j2" "j3" "xxx" accounts
      (refresh toy 1000 "j2" "xxx" accounts).1 (tokens_for toy 1000 2 "j2" account) presented
      j2-ne-j1 refreshed_once done (omega arith)

refresh_after_logout_example : Refused toy 2000 "j3" "xxx" (logout toy 1000 "xxx" accounts).1
refresh_after_logout_example =
    refresh_after_logout toy toy-Steady 1000 2000 2 "j1" "j3" "xxx" accounts
      (logout toy 1000 "xxx" accounts).1 presented done (omega arith)

register-IsUnique_example :
    IsUnique
      (register toy 10 3 "salt" "j2"
        (codes " b@b.c")
        (codes "Passw0rd!")
        (codes "Bob")
        none
        accounts).1.users
register-IsUnique_example =
    register-IsUnique toy 10 3 "salt" "j2" (codes " b@b.c") (codes "Passw0rd!") (codes "Bob") none
      accounts (tt, tt)

signed_up_run :
    (register toy 10 3 "salt" "j2" (codes "b@b.c") (codes "Passw0rd!") (codes "Bob") none nobody).0
    ≡ ok (
        result_for toy 10
          (new_user toy 10 3 "salt" (codes "b@b.c") (codes "Passw0rd!") (codes "Bob"))
          "j2")
unfolding register register_new strip drop_while drop_end email_is_valid check_password_policy
    after_last_at first_line one_line find_by_email create_user seed_default_settings upsert_setting
    insert_session insert_auth_audit
signed_up_run = refl

register-login_example :
    (login toy 20 "j4"
      (codes "b@b.c")
      (codes "Passw0rd!")
      none
      (register toy 10 3 "salt" "j2"
        (codes "b@b.c")
        (codes "Passw0rd!")
        (codes "Bob")
        none
        nobody).1).0
    ≡ ok (
        result_for toy 20
          (new_user toy 10 3 "salt"
            (normalised toy 10 (codes "b@b.c"))
            (codes "Passw0rd!")
            (codes "Bob"))
          "j4")
register-login_example =
    register-login toy 10 3 "salt" "j2" (codes "b@b.c") (codes "Passw0rd!") (codes "Bob") none
      nobody 20 "j4" none
      (result_for toy 10
        (new_user toy 10 3 "salt" (codes "b@b.c") (codes "Passw0rd!") (codes "Bob")) "j2")
      refl signed_up_run

failed-Restores_example :
    Restores
      (register toy 10 3 "salt" "j2" (codes "b@b.c") (codes "weak") (codes "Bob") none)
      accounts
    × Restores (login toy 10 "j2" (codes "b@b.c") (codes "weak") none) accounts
    × Restores (refresh toy 10 "j2" "xxx") accounts
    × Restores (logout toy 10 "xxx") accounts
failed-Restores_example =
    failed-Restores toy 10 accounts 3 "salt" "j2" "xxx" (codes "b@b.c") (codes "weak") (codes "Bob")
      none

longer_text : (c : Char) (s : String) → is_empty_text (String.◌∷◌ c s) ≡ false
longer_text c s = elim (Bool-cases (is_empty_text (String.◌∷◌ c s))) [
  | inr e ↦ e
  | inl e ↦ let x = (eq_iff (String.◌∷◌ c s) "").0 e in cc
]

counted-unary : (u : ℕ) → (counted (unary u) ≡ some u) × (is_empty_text (unary u) ≡ false)
counted-unary zero = (refl, refl)
counted-unary (suc zero) = (refl, refl)
counted-unary (suc (suc n)) =
    let (e, _) = counted-unary (suc n) in (rw e refl, longer_text "x" (unary (suc n)))

toy-ReadsBack : ReadsBack toy "j1"
toy-ReadsBack = (λ u now exp t issued le. refl, counted-unary)

logged_in_run :
    (login toy 10 "j1" (codes "a@b.c") (codes "secret") none accounts).0
    ≡ ok (result_for toy 10 account "j1")
unfolding login strip drop_while drop_end find_by_email insert_session insert_auth_audit
logged_in_run = refl

login-refresh_example :
    (r' : RefreshResult) × ((refresh toy 20 "j2"
        (create_refresh_token toy 10 2 "j1")
        (login toy 10 "j1" (codes "a@b.c") (codes "secret") none accounts).1).0
      ≡ ok r')
login-refresh_example =
    login-refresh toy 10 20 "j1" "j2" toy-ReadsBack (codes "a@b.c") (codes "secret") none accounts
      (result_for toy 10 account "j1") refl (omega arith) (omega arith) logged_in_run

abbrev dark_mode : Entries
dark_mode = ("theme", str "light") ∷ ("auto_approve_threshold", int (pos 90)) ∷ []

update_settings-IsValidTable_example :
    IsValidTable (update_settings 2 dark_mode accounts).1.settings
update_settings-IsValidTable_example = update_settings-IsValidTable 2 dark_mode accounts tt
