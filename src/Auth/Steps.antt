-- ===== src/Auth/Steps.antt =====
-- Every operation of the service keeps a spent session spent.
use auto_apply.Common.{
  ℕ, ◌+◌, String, ◌≡◌, ◌≢◌, refl, Option, Text, Bool-cases, inl, inr, map, any_of, Option-cases,
  ◌==◌, ◌||◌, text_eq,
}
use auto_apply.Common.Exec.{Outcome, ok, err, continue, settle}
use auto_apply.Auth.Store.{
  User, Accounts, AuthError, revoke_row, is_active_session, revoke_active_session, insert_session,
  create_user, seed_default_settings, upsert_setting, insert_auth_audit, find_by_email,
  get_user_by_id,
}
use auto_apply.Auth.Tokens.{Crypto, refresh_ttl, refresh_subject}
use auto_apply.Auth.Policy.{email_is_valid, check_password_policy}
use auto_apply.Auth.Service.{
  register, register_new, login, refresh, rotate, logout, restore, authenticated, new_user,
  normalised, start_session, is_blank, result_for, tokens_for,
}
use auto_apply.Auth.Sessions.{Spent, Spent-revoke, Spent-insert}

-- One operation of the service, with a new `jti` whose hash is not `h`.
pub data Step (crypto : Crypto) (h : String) : Accounts → Accounts → Type 0 where
  registered :
      (now user_id : ℕ) (salt jti : String) (email password name : Text) (ip : Option String)
      (w : Accounts)
      → crypto.sha256_hex jti ≢ h
      → Step crypto h w (register crypto now user_id salt jti email password name ip w).1
  logged_in :
      (now : ℕ) (jti : String) (email password : Text) (ip : Option String) (w : Accounts)
      → crypto.sha256_hex jti ≢ h
      → Step crypto h w (login crypto now jti email password ip w).1
  refreshed :
      (now : ℕ) (jti token : String) (w : Accounts)
      → crypto.sha256_hex jti ≢ h
      → Step crypto h w (refresh crypto now jti token w).1
  logged_out :
      (now : ℕ) (token : String) (w : Accounts) → Step crypto h w (logout crypto now token w).1

pub data Steps (crypto : Crypto) (h : String) (w : Accounts) : Accounts → Type 0 where
  done : Steps crypto h w w
  after : {v x : Accounts} → Steps crypto h w v → Step crypto h v x → Steps crypto h w x

module _ (crypto : Crypto) (u : ℕ) (h : String) (t : ℕ) where
  register_new-Spent :
      (now : ℕ) (n : User) (jti : String) (ip : Option String) (w : Accounts)
      → crypto.sha256_hex jti ≢ h
      → Spent u h t w.sessions
      → Spent u h t (settle restore w (register_new crypto now n jti ip w)).1.sessions
  unfolding register_new create_user seed_default_settings upsert_setting insert_auth_audit
      insert_session
  register_new-Spent now n jti ip w ne p = elim (Option-cases (find_by_email n.email w)) [
    | inr (k, e) ↦ rw e p
    | inl e ↦ elim (Bool-cases (any_of (λ v. v.id == n.id || text_eq v.email n.email) w.users)) [
      | inl b ↦ rw (e, b) p
      | inr b ↦
          rw (e, b) (Spent-insert u h t n.id (crypto.sha256_hex jti) (now + refresh_ttl) w ne p)
    ]
  ]

  after_register-Spent :
      (now : ℕ) (n : User) (jti : String) (o : Outcome AuthError Unit × Accounts)
      → Spent u h t o.1.sessions
      → Spent u h t (continue o.0 (λ _ w. (ok (result_for crypto now n jti), w)) o.1).1.sessions
  after_register-Spent now n jti (ok x, w) p = p
  after_register-Spent now n jti (err e, w) p = p

  register-Spent :
      (now user_id : ℕ) (salt jti : String) (email password name : Text) (ip : Option String)
      (w : Accounts)
      → crypto.sha256_hex jti ≢ h
      → Spent u h t w.sessions
      → Spent u h t (register crypto now user_id salt jti email password name ip w).1.sessions
  unfolding register
  register-Spent now user_id salt jti email password name ip w ne p =
      elim (Bool-cases (email_is_valid (normalised crypto now email))) [
        | inr a ↦ rw a p
        | inl a ↦ elim (Bool-cases (is_blank name)) [
          | inl b ↦ rw (a, b) p
          | inr b ↦ elim (Bool-cases (check_password_policy crypto password)) [
            | inr c ↦ rw (a, b, c) p
            | inl c ↦
                rw (a, b, c)
                  (after_register-Spent now
                    (new_user crypto now user_id salt (normalised crypto now email) password name)
                    jti
                    (settle restore w (
                      register_new crypto now
                        (new_user crypto now user_id salt (normalised crypto now email) password
                          name)
                        jti ip w))
                    (register_new-Spent now
                      (new_user crypto now user_id salt (normalised crypto now email) password name)
                      jti ip w ne p))
          ]
        ]
      ]

  login-Spent :
      (now : ℕ) (jti : String) (email password : Text) (ip : Option String) (w : Accounts)
      → crypto.sha256_hex jti ≢ h
      → Spent u h t w.sessions
      → Spent u h t (login crypto now jti email password ip w).1.sessions
  unfolding login insert_session insert_auth_audit
  login-Spent now jti email password ip w ne p =
      go (authenticated crypto now password (find_by_email (normalised crypto now email) w))
    where
      go :
          (o : Outcome AuthError User)
          → Spent u h t
              (continue o
                (λ k v.
                  continue
                    (settle restore v (start_session crypto now k jti ip v)).0
                    (λ _ x. (ok (result_for crypto now k jti), x))
                    (settle restore v (start_session crypto now k jti ip v)).1)
                w).1.sessions
      go (err e) = p
      go (ok k) = Spent-insert u h t k.id (crypto.sha256_hex jti) (now + refresh_ttl) w ne p

  rotate-Spent :
      (now : ℕ) (v : ℕ) (old jti : String) (w : Accounts)
      → crypto.sha256_hex jti ≢ h
      → Spent u h t w.sessions
      → Spent u h t (rotate crypto now v old jti w).1.sessions
  unfolding rotate revoke_active_session insert_session
  rotate-Spent now v old jti w ne p =
      let k = crypto.sha256_hex old in
      let w' = record w { sessions = map (revoke_row v k now) w.sessions } in
      let q = Spent-revoke u h t v k now w.sessions p in
      elim (Bool-cases (any_of (is_active_session v k now) w.sessions)) [
        | inr a ↦ rw a q
        | inl a ↦ elim (Option-cases (get_user_by_id v w')) [
          | inl e ↦ rw (a, e) q
          | inr (n, e) ↦
              rw (a, e) (Spent-insert u h t v (crypto.sha256_hex jti) (now + refresh_ttl) w' ne q)
        ]
      ]

  settled-Spent :
      {A : Type 0} (w : Accounts) (o : Outcome AuthError A × Accounts)
      → Spent u h t w.sessions
      → Spent u h t o.1.sessions
      → Spent u h t (settle restore w o).1.sessions
  settled-Spent w (ok a, v) p q = q
  settled-Spent w (err e, v) p q = p

  continued-sessions :
      {A B : Type 0} (f : A → Outcome AuthError B) (o : Outcome AuthError A × Accounts)
      → (continue o.0 (λ a v. (f a, v)) o.1).1 ≡ o.1
  continued-sessions f (ok a, v) = refl
  continued-sessions f (err e, v) = refl

  refresh-Spent :
      (now : ℕ) (jti token : String) (w : Accounts)
      → crypto.sha256_hex jti ≢ h
      → Spent u h t w.sessions
      → Spent u h t (refresh crypto now jti token w).1.sessions
  unfolding refresh
  refresh-Spent now jti token w ne p = go (refresh_subject crypto now token)
    where
      go :
          (o : Outcome AuthError (ℕ × String))
          → Spent u h t
              (continue o
                (λ q v.
                  continue
                    (settle restore v (rotate crypto now q.0 q.1 jti v)).0
                    (λ k x. (ok (tokens_for crypto now q.0 jti k), x))
                    (settle restore v (rotate crypto now q.0 q.1 jti v)).1)
                w).1.sessions
      go (err e) = p
      go (ok (v, old)) =
          rw
            (continued-sessions (λ k. ok (tokens_for crypto now v jti k))
              (settle restore w (rotate crypto now v old jti w)))
            (settled-Spent w (rotate crypto now v old jti w) p (rotate-Spent now v old jti w ne p))

  logout-Spent :
      (now : ℕ) (token : String) (w : Accounts)
      → Spent u h t w.sessions
      → Spent u h t (logout crypto now token w).1.sessions
  unfolding logout revoke_active_session
  logout-Spent now token w p = go (refresh_subject crypto now token)
    where
      go :
          (o : Outcome AuthError (ℕ × String))
          → Spent u h t
              (continue o
                (λ q v. (
                  ok (revoke_active_session q.0 (crypto.sha256_hex q.1) now v).0,
                  (revoke_active_session q.0 (crypto.sha256_hex q.1) now v).1,
                ))
                w).1.sessions
      go (err e) = p
      go (ok (v, old)) = Spent-revoke u h t v (crypto.sha256_hex old) now w.sessions p

  Step-Spent :
      {w v : Accounts} → Step crypto h w v → Spent u h t w.sessions → Spent u h t v.sessions
  Step-Spent (registered now user_id salt jti email password name ip w ne) p =
      register-Spent now user_id salt jti email password name ip w ne p
  Step-Spent (logged_in now jti email password ip w ne) p =
      login-Spent now jti email password ip w ne p
  Step-Spent (refreshed now jti token w ne) p = refresh-Spent now jti token w ne p
  Step-Spent (logged_out now token w) p = logout-Spent now token w p

  pub Steps-Spent :
      {w v : Accounts} → Steps crypto h w v → Spent u h t w.sessions → Spent u h t v.sessions
  Steps-Spent done p = p
  Steps-Spent (after ss s) p = Step-Spent s (Steps-Spent ss p)
