-- ===== src/Auth/Service.antt =====
-- `AuthService` (backend/app/auth/service.py). What the code draws at random comes as an argument:
-- the new user's id and the salt (`register`), and the `jti` of a new refresh token.
use auto_apply.Common.{
  ℕ, ◌+◌, String, Bool, true, false, not, Option, none, some, [], ◌∷◌, Text, if◌then◌else◌,
}
use auto_apply.Common.Exec.{
  Exec, Outcome, ok, err, pure, raise, run, gets, modify, transaction, ◌>>=◌, ◌>>◌,
}
use auto_apply.Json.{obj, no_fields, field, text_of}
use auto_apply.Llm.Store.{AuditRow}
use auto_apply.Llm.JsonText.{strip}
use auto_apply.Auth.Store.{
  User, Accounts, AuthError, validation_error, weak_password, user_exists, invalid_credentials,
  token_invalid, find_by_email, get_user_by_id, create_user, seed_default_settings, insert_session,
  revoke_active_session, insert_auth_audit,
}
use auto_apply.Auth.Tokens.{
  Crypto, access_type, refresh_ttl, create_access_token, create_refresh_token, decode_token,
  refresh_subject, subject,
}
use auto_apply.Auth.Policy.{email_is_valid, check_password_policy}

pub record AuthResult : Type 0 where
  pub id : ℕ
  pub email : Text
  pub name : Text
  pub access_token : String
  pub refresh_token : String

pub record RefreshResult : Type 0 where
  pub access_token : String
  pub refresh_token : String

pub record UserOut : Type 0 where
  pub id : ℕ
  pub email : Text
  pub name : Text
  pub created_at : ℕ

-- A rollback restores every table.
abbrev pub restore : Accounts → Accounts → Accounts
restore before after = before

abbrev pub raised : {A : Type 0} → Outcome AuthError A → Exec Accounts AuthError A
raised o w = (o, w)

-- `not text or not text.strip()`
abbrev pub is_blank : Text → Bool
is_blank s = elim (strip s) [ [] ↦ true | _ ∷ _ ↦ false ]

module _ (crypto : Crypto) (now : ℕ) where
  -- `(email or "").strip().lower()`
  abbrev pub normalised : Text → Text
  normalised email = crypto.lower (strip email)

  abbrev pub opened_session : ℕ → String → Accounts → Accounts
  opened_session user_id jti = insert_session user_id (crypto.sha256_hex jti) (now + refresh_ttl)

  abbrev pub result_for : User → String → AuthResult
  result_for u jti = record {
    id = u.id;
    email = u.email;
    name = u.name;
    access_token = create_access_token crypto now u.id u.email;
    refresh_token = create_refresh_token crypto now u.id jti;
  }

  abbrev pub signed_up : User → Option String → AuditRow
  signed_up u ip_address = record {
    user_id = u.id;
    action = "user_registered";
    resource_type = "user";
    resource_id = some u.id;
    details = obj (field "email" (text_of u.email) no_fields);
    ip_address = ip_address;
  }

  abbrev pub signed_in : User → Option String → AuditRow
  signed_in u ip_address = record {
    user_id = u.id;
    action = "user_logged_in";
    resource_type = "user";
    resource_id = some u.id;
    details = obj no_fields;
    ip_address = ip_address;
  }

  abbrev pub refuse_known : Option User → Exec Accounts AuthError (Unit {0})
  refuse_known none = pure tt
  refuse_known (some u) = raise user_exists

  unfoldable pub register_new : User → String → Option String → Exec Accounts AuthError (Unit {0})
  register_new u jti ip_address = do
    known ← gets (find_by_email u.email)
    refuse_known known
    create_user u
    modify (seed_default_settings u.id)
    modify (insert_auth_audit (signed_up u ip_address))
    modify (opened_session u.id jti)

  abbrev pub new_user : ℕ → String → Text → Text → Text → User
  new_user user_id salt email password name = record {
    id = user_id;
    email = email;
    password_hash = crypto.hashpw salt password;
    name = name;
    created_at = now;
  }

  unfoldable pub register :
      (user_id : ℕ) (salt jti : String) (email password name : Text) (ip_address : Option String)
      → Exec Accounts AuthError AuthResult
  unfolding register_new email_is_valid
  register user_id salt jti email password name ip_address =
      let u = new_user user_id salt (normalised email) password name in
      if not (email_is_valid u.email)
      then raise validation_error
      else (if is_blank name
          then raise validation_error
          else (if not (check_password_policy crypto password) then raise weak_password else (do
            transaction restore (register_new u jti ip_address)
            pure (result_for u jti))))

  abbrev pub authenticated : Text → Option User → Outcome AuthError User
  authenticated password none = err invalid_credentials
  authenticated password (some u) =
      if crypto.checkpw password u.password_hash then ok u else err invalid_credentials

  abbrev pub start_session : User → String → Option String → Exec Accounts AuthError (Unit {0})
  start_session u jti ip_address = do
    modify (opened_session u.id jti)
    modify (insert_auth_audit (signed_in u ip_address))

  unfoldable pub login :
      (jti : String) (email password : Text) (ip_address : Option String)
      → Exec Accounts AuthError AuthResult
  login jti email password ip_address = do
    identity ← gets (find_by_email (normalised email))
    u ← raised (authenticated password identity)
    transaction restore (start_session u jti ip_address)
    pure (result_for u jti)

  abbrev pub refuse_unless : Bool → Exec Accounts AuthError (Unit {0})
  refuse_unless true = pure tt
  refuse_unless false = raise token_invalid

  abbrev pub existing : Option User → Outcome AuthError User
  existing none = err token_invalid
  existing (some u) = ok u

  unfoldable pub rotate : ℕ → String → String → Exec Accounts AuthError User
  rotate user_id old_jti jti = do
    revoked ← run (revoke_active_session user_id (crypto.sha256_hex old_jti) now)
    refuse_unless revoked
    identity ← gets (get_user_by_id user_id)
    u ← raised (existing identity)
    modify (opened_session user_id jti)
    pure u

  abbrev pub tokens_for : ℕ → String → User → RefreshResult
  tokens_for user_id jti u = record {
    access_token = create_access_token crypto now user_id u.email;
    refresh_token = create_refresh_token crypto now user_id jti;
  }

  unfoldable pub refresh : (jti refresh_token : String) → Exec Accounts AuthError RefreshResult
  unfolding rotate
  refresh jti refresh_token = do
    presented ← raised (refresh_subject crypto now refresh_token)
    u ← transaction restore (rotate presented.0 presented.1 jti)
    pure (tokens_for presented.0 jti u)

  -- The source drops the answer of the UPDATE.
  unfoldable pub logout : String → Exec Accounts AuthError Bool
  logout refresh_token = do
    presented ← raised (refresh_subject crypto now refresh_token)
    transaction restore
        (run (revoke_active_session presented.0 (crypto.sha256_hex presented.1) now))

  unfoldable pub me : String → Exec Accounts AuthError UserOut
  me access_token = do
    presented ← raised (subject crypto now (decode_token crypto now access_token access_type))
    identity ← gets (get_user_by_id presented.0)
    u ← raised (existing identity)
    pure (record { id = presented.0; email = u.email; name = u.name; created_at = u.created_at })
