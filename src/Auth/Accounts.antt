-- ===== src/Auth/Accounts.antt =====
-- Accounts: what a failed operation leaves, one account for each email, and signing in after
-- signing up.
use auto_apply.Common.{
  ℕ, String, ◌≡◌, refl, Bool, true, false, ◌||◌, ◌==◌, Option, none, some, List, [], ◌∷◌, ◌++◌,
  Text, arith, Bool-cases, inl, inr, any_of, find_first, Option-cases, text_eq, text_eq_refl, All,
  All-append,
}
use auto_apply.Common.Exec.{Outcome, ok, err, settle}
use auto_apply.Auth.Store.{
  User, Accounts, AuthError, create_user, seed_default_settings, upsert_setting, insert_session,
  insert_auth_audit, find_by_email,
}
use auto_apply.Auth.Tokens.{Crypto}
use auto_apply.Auth.Policy.{email_is_valid, check_password_policy}
use auto_apply.Auth.Service.{
  AuthResult, register, register_new, login, restore, new_user, normalised, is_blank, result_for,
}

-- No two accounts have the same email.
abbrev pub IsUnique : List User → Type 0
IsUnique [] = Unit
IsUnique (u ∷ l) = All (λ v. text_eq u.email v.email ≡ false) l × IsUnique l

abbrev taken : User → User → Bool
taken u v = v.id == u.id || text_eq v.email u.email

append-IsUnique :
    (l : List User) (u : User) → IsUnique l → any_of (taken u) l ≡ false → IsUnique (l ++ u ∷ [])
append-IsUnique [] u p e = (tt, tt)
append-IsUnique (v ∷ l) u (q, p) e = (
  All-append (λ x. text_eq v.email x.email ≡ false) l (u ∷ []) q (ground arith, tt),
  append-IsUnique l u p (ground arith),
)

find_first-append :
    (p : User → Bool) (l : List User) (u : User)
    → find_first p l ≡ none
    → p u ≡ true
    → find_first p (l ++ u ∷ []) ≡ some u
find_first-append p [] u e h = rw h
find_first-append p (v ∷ l) u e h = elim (Bool-cases (p v)) [
  | inl b ↦ let bad = (rw b at e) in cc
  | inr b ↦ rw b (find_first-append p l u (rw b at e) h)
]

module _ (crypto : Crypto) (now user_id : ℕ) (salt jti : String) (email password name : Text)
    (ip : Option String) (w : Accounts) where
  abbrev n : User
  n = new_user crypto now user_id salt (normalised crypto now email) password name

  abbrev attempt : Outcome AuthError Unit × Accounts
  attempt = settle restore w (register_new crypto now n jti ip w)

  -- What a registration comes to: it is refused and nothing has changed, or the account is the only
  -- one with its email, and the last.
  abbrev Registered : Outcome AuthError AuthResult × Accounts → Type 0
  Registered (err e, v) = v ≡ w
  Registered (ok r, v) =
      (r ≡ result_for crypto now n jti)
      × (find_by_email n.email w ≡ none)
      × (any_of (taken n) w.users ≡ false)
      × (v.users ≡ w.users ++ n ∷ [])

  register-Registered : Registered (register crypto now user_id salt jti email password name ip w)
  unfolding register register_new create_user seed_default_settings upsert_setting insert_session
      insert_auth_audit
  register-Registered = elim (Bool-cases (email_is_valid (normalised crypto now email))) [
    | inr a ↦ rw a refl
    | inl a ↦ elim (Bool-cases (is_blank name)) [
      | inl b ↦ rw (a, b) refl
      | inr b ↦ elim (Bool-cases (check_password_policy crypto password)) [
        | inr c ↦ rw (a, b, c) refl
        | inl c ↦ elim (Option-cases (find_by_email n.email w)) [
          | inr (k, e) ↦ rw (a, b, c, e) refl
          | inl e ↦ elim (Bool-cases (any_of (taken n) w.users)) [
            | inl d ↦ rw (a, b, c, e, d) refl
            | inr d ↦ rw (a, b, c, e, d) (refl, e, d, refl)
          ]
        ]
      ]
    ]
  ]

  Registered-IsUnique :
      (o : Outcome AuthError AuthResult × Accounts)
      → Registered o
      → IsUnique w.users
      → IsUnique o.1.users
  Registered-IsUnique (err e, v) h p = rw h p
  Registered-IsUnique (ok r, v) (_, _, d, e) p = rw e (append-IsUnique w.users n p d)

  -- After a registration, also one that raises, no two accounts have the same email, if none had
  -- before.
  pub register-IsUnique :
      IsUnique w.users
      → IsUnique (register crypto now user_id salt jti email password name ip w).1.users
  register-IsUnique =
      Registered-IsUnique (register crypto now user_id salt jti email password name ip w)
        register-Registered

  Registered-login :
      (later : ℕ) (jti' : String) (ip' : Option String) (r : AuthResult)
      (o : Outcome AuthError AuthResult × Accounts)
      → crypto.checkpw password (crypto.hashpw salt password) ≡ true
      → Registered o
      → o.0 ≡ ok r
      → (login crypto later jti' email password ip' o.1).0 ≡ ok (result_for crypto later n jti')
  unfolding login find_by_email
  Registered-login later jti' ip' r (err e, v) h g x = cc
  Registered-login later jti' ip' r (ok q, v) h (_, none_yet, _, e) x = rw (
    e,
    find_first-append (λ u. text_eq u.email n.email) w.users n none_yet (text_eq_refl n.email),
    h,
  )

  -- Who has signed up can sign in with the same email and password, if bcrypt accepts a password
  -- under its own hash.
  pub register-login :
      (later : ℕ) (jti' : String) (ip' : Option String) (r : AuthResult)
      → crypto.checkpw password (crypto.hashpw salt password) ≡ true
      → (register crypto now user_id salt jti email password name ip w).0 ≡ ok r
      → (login crypto later jti' email password ip'
          (register crypto now user_id salt jti email password name ip w).1).0
        ≡ ok (result_for crypto later n jti')
  register-login later jti' ip' r h e =
      Registered-login later jti' ip' r
        (register crypto now user_id salt jti email password name ip w) h register-Registered e

  Registered-err :
      (o : Outcome AuthError AuthResult × Accounts) (e : AuthError)
      → Registered o
      → o.0 ≡ err e
      → o.1 ≡ w
  Registered-err (err x, v) e h f = h
  Registered-err (ok r, v) e h f = cc

  pub register_failed :
      (e : AuthError)
      → (register crypto now user_id salt jti email password name ip w).0 ≡ err e
      → (register crypto now user_id salt jti email password name ip w).1 ≡ w
  register_failed e f =
      Registered-err (register crypto now user_id salt jti email password name ip w) e
        register-Registered f
