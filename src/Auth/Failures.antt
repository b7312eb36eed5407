-- ===== src/Auth/Failures.antt =====
-- What an operation of the service that raises leaves behind.
use auto_apply.Common.{ℕ, String, ◌≡◌, refl, Option, Text}
use auto_apply.Common.Exec.{Exec, Outcome, ok, err, continue, settle}
use auto_apply.Auth.Store.{User, Accounts, AuthError, revoke_active_session, find_by_email}
use auto_apply.Auth.Tokens.{Crypto, refresh_subject}
use auto_apply.Auth.Service.{
  register, login, refresh, rotate, logout, restore, authenticated, normalised, start_session,
  result_for, tokens_for,
}
use auto_apply.Auth.Accounts.{register_failed}

-- An operation that raises leaves every table as it was.
abbrev pub Restores : {A : Type 0} → Exec Accounts AuthError A → Accounts → Type 0
Restores m w = (e : AuthError) → (m w).0 ≡ err e → (m w).1 ≡ w

Restored : {A : Type 0} → Accounts → Outcome AuthError A × Accounts → Type 0
Restored w o = (e : AuthError) → o.0 ≡ err e → o.1 ≡ w

module _ (crypto : Crypto) (now : ℕ) (w : Accounts) where
  login-Restores :
      (jti : String) (email password : Text) (ip : Option String)
      → Restores (login crypto now jti email password ip) w
  unfolding login
  login-Restores jti email password ip =
      go (authenticated crypto now password (find_by_email (normalised crypto now email) w))
    where
      go :
          (o : Outcome AuthError User) (e : AuthError)
          → (continue o
              (λ k v.
                continue
                  (settle restore v (start_session crypto now k jti ip v)).0
                  (λ _ x. (ok (result_for crypto now k jti), x))
                  (settle restore v (start_session crypto now k jti ip v)).1)
              w).0
            ≡ err e
          → (continue o
              (λ k v.
                continue
                  (settle restore v (start_session crypto now k jti ip v)).0
                  (λ _ x. (ok (result_for crypto now k jti), x))
                  (settle restore v (start_session crypto now k jti ip v)).1)
              w).1
            ≡ w
      go (err x) e h = refl
      go (ok k) e h = cc

  settled :
      (v : ℕ) (jti : String) (o : Outcome AuthError User × Accounts) (e : AuthError)
      → (continue
          (settle restore w o).0
          (λ k x. (ok (tokens_for crypto now v jti k), x))
          (settle restore w o).1).0
        ≡ err e
      → (continue
          (settle restore w o).0
          (λ k x. (ok (tokens_for crypto now v jti k), x))
          (settle restore w o).1).1
        ≡ w
  settled v jti (ok k, x) e h = cc
  settled v jti (err y, x) e h = refl

  refresh-Restores : (jti token : String) → Restores (refresh crypto now jti token) w
  unfolding refresh
  refresh-Restores jti token = go (refresh_subject crypto now token)
    where
      go :
          (o : Outcome AuthError (ℕ × String)) (e : AuthError)
          → (continue o
              (λ q v.
                continue
                  (settle restore v (rotate crypto now q.0 q.1 jti v)).0
                  (λ k x. (ok (tokens_for crypto now q.0 jti k), x))
                  (settle restore v (rotate crypto now q.0 q.1 jti v)).1)
              w).0
            ≡ err e
          → (continue o
              (λ q v.
                continue
                  (settle restore v (rotate crypto now q.0 q.1 jti v)).0
                  (λ k x. (ok (tokens_for crypto now q.0 jti k), x))
                  (settle restore v (rotate crypto now q.0 q.1 jti v)).1)
              w).1
            ≡ w
      go (err x) e h = refl
      go (ok (v, old)) e h = settled v jti (rotate crypto now v old jti w) e h

  logout-Restores : (token : String) → Restores (logout crypto now token) w
  unfolding logout
  logout-Restores token = go (refresh_subject crypto now token)
    where
      go :
          (o : Outcome AuthError (ℕ × String)) (e : AuthError)
          → (continue o
              (λ q v. (
                ok (revoke_active_session q.0 (crypto.sha256_hex q.1) now v).0,
                (revoke_active_session q.0 (crypto.sha256_hex q.1) now v).1,
              ))
              w).0
            ≡ err e
          → (continue o
              (λ q v. (
                ok (revoke_active_session q.0 (crypto.sha256_hex q.1) now v).0,
                (revoke_active_session q.0 (crypto.sha256_hex q.1) now v).1,
              ))
              w).1
            ≡ w
      go (err x) e h = refl
      go (ok q) e h = cc

  -- A registration, a login, a refresh and a logout that raise leave every table as it was.
  pub failed-Restores :
      (user_id : ℕ) (salt jti token : String) (email password name : Text) (ip : Option String)
      → Restores (register crypto now user_id salt jti email password name ip) w
        × Restores (login crypto now jti email password ip) w
        × Restores (refresh crypto now jti token) w
        × Restores (logout crypto now token) w
  failed-Restores user_id salt jti token email password name ip = (
    register_failed crypto now user_id salt jti email password name ip w,
    login-Restores jti email password ip,
    refresh-Restores jti token,
    logout-Restores token,
  )
