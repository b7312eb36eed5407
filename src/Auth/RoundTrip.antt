-- ===== src/Auth/RoundTrip.antt =====
-- The refresh token of a login is accepted.
use auto_apply.Common.{
  ℕ, ◌+◌, ◌≤◌, String, ◌≡◌, refl, Bool, true, false, ◌==◌, Option, none, some, List, [], ◌∷◌, ◌++◌,
  Text, arith, Bool-cases, inl, inr, any_of, find_first, Option-cases, str_eq_refl, is_some,
  is_empty_text, text_eq, subst,
}
use auto_apply.Common.Exec.{ok, settle}
use auto_apply.Auth.Store.{
  User, Accounts, is_active_session, insert_session, insert_auth_audit, find_by_email,
  get_user_by_id, revoke_active_session,
}
use auto_apply.Auth.Tokens.{
  Crypto, payload, refresh_ttl, refresh_claims, refresh_subject, decode_token, create_refresh_token,
}
use auto_apply.Auth.Service.{
  AuthResult, RefreshResult, login, refresh, rotate, restore, normalised, start_session, result_for,
  tokens_for,
}

-- What is relied on: a refresh token is read back as it was signed from the time it is issued until
-- one second before it expires (its times are whole seconds), and an id is read back from its text, which is not empty.
abbrev pub ReadsBack : Crypto → String → Type 0
ReadsBack crypto jti =
    ((u now exp t : ℕ)
      → now ≤ t
      → t + 1_000_000 ≤ exp
      → crypto.jwt_decode t (crypto.jwt_encode (refresh_claims crypto now u jti) now exp)
        ≡ payload (refresh_claims crypto now u jti))
    × ((u : ℕ)
        → (crypto.uuid_read (crypto.uuid_text u) ≡ some u)
          × (is_empty_text (crypto.uuid_text u) ≡ false))

any_of-last {ℓ} :
    {A : Type ℓ} (p : A → Bool) (l : List A) (x : A) → p x ≡ true → any_of p (l ++ x ∷ []) ≡ true
any_of-last p [] x h = ground arith
any_of-last p (y ∷ l) x h = ground (arith, any_of-last p l x h)

find_by_id_of_email :
    (f : User → Bool) (l : List User) (u : User)
    → find_first f l ≡ some u
    → is_some (find_first (λ v. v.id == u.id) l) ≡ true
find_by_id_of_email f [] u h = cc
find_by_id_of_email f (v ∷ l) u h = elim (Bool-cases (v.id == u.id)) [
  | inl a ↦ rw a refl
  | inr a ↦ elim (Bool-cases (f v)) [
    | inl b ↦ let same = (rw b at h) in ground arith
    | inr b ↦ rw a (find_by_id_of_email f l u (rw b at h))
  ]
]

is_some-cases {ℓ} : {A : Type ℓ} (o : Option A) → is_some o ≡ true → (a : A) × (o ≡ some a)
is_some-cases none h = cc
is_some-cases (some a) h = (a, refl)

module _ (crypto : Crypto) (now later : ℕ) (jti jti' : String) (reads : ReadsBack crypto jti)
    (email password : Text) (ip : Option String) (w : Accounts) where
  refresh_subject-create :
      (u : ℕ)
      → is_empty_text jti ≡ false
      → now ≤ later
      → later + 1_000_000 ≤ now + refresh_ttl
      → refresh_subject crypto later (create_refresh_token crypto now u jti) ≡ ok (u, jti)
  unfolding refresh_subject decode_token create_refresh_token
  refresh_subject-create u e issued le =
      rw (reads.0 u now (now + refresh_ttl) later issued le, (reads.1 u).1, (reads.1 u).0, e) refl

  rotate_opened :
      (u : User) (v : Accounts)
      → any_of (is_active_session u.id (crypto.sha256_hex jti) later) v.sessions ≡ true
      → is_some (find_first (λ k. k.id == u.id) v.users) ≡ true
      → (k : User) × ((settle restore v (rotate crypto later u.id jti jti' v)).0 ≡ ok k)
  unfolding rotate revoke_active_session get_user_by_id
  rotate_opened u v a b =
      let (k, e) = is_some-cases (find_first (λ k. k.id == u.id) v.users) b in (k, rw (a, e) refl)

  refresh_opened :
      (u : User) (v : Accounts)
      → is_empty_text jti ≡ false
      → now ≤ later
      → later + 1_000_000 ≤ now + refresh_ttl
      → any_of (is_active_session u.id (crypto.sha256_hex jti) later) v.sessions ≡ true
      → is_some (find_first (λ k. k.id == u.id) v.users) ≡ true
      → (r' : RefreshResult) × ((refresh crypto later jti'
            (create_refresh_token crypto now u.id jti)
            v).0
          ≡ ok r')
  unfolding refresh
  refresh_opened u v e issued le a b =
      let (k, f) = rotate_opened u v a b in
      (
        tokens_for crypto later u.id jti' k,
        rw (refresh_subject-create u.id e issued le) (rw f refl),
      )

  -- The refresh token of a login is accepted from the time of the login until a second before it
  -- expires, if tokens are read back as they were written between these times, ids are read back as
  -- they were written, and the drawn `jti` is not empty.
  pub login-refresh :
      (r : AuthResult)
      → is_empty_text jti ≡ false
      → now ≤ later
      → later + 1_000_000 ≤ now + refresh_ttl
      → (login crypto now jti email password ip w).0 ≡ ok r
      → (r' : RefreshResult) × ((refresh crypto later jti' r.refresh_token
            (login crypto now jti email password ip w).1).0
          ≡ ok r')
  unfolding login insert_session insert_auth_audit find_by_email
  login-refresh r e issued le won =
      elim (Option-cases
        (find_first (λ u. text_eq u.email (normalised crypto now email)) w.users)) [
          | inl none_found ↦ let bad = (rw none_found at won) in cc
          | inr (u, found) ↦ elim (Bool-cases (crypto.checkpw password u.password_hash)) [
            | inr wrong ↦ let bad = (rw (found, wrong) at won) in cc
            | inl right ↦
                let same : result_for crypto now u jti ≡ r =
                  let x = (rw (found, right) at won) in ground arith in
                let v = (start_session crypto now u jti ip w).1 in
                let active =
                  any_of-last (is_active_session u.id (crypto.sha256_hex jti) later) w.sessions _
                    (ground (arith, str_eq_refl (crypto.sha256_hex jti))) in
                let known =
                  find_by_id_of_email (λ u. text_eq u.email (normalised crypto now email)) w.users u
                    found in
                rw (found, right)
                  (subst
                    (λ (q : AuthResult).
                      (r' : RefreshResult) × ((refresh crypto later jti' q.refresh_token v).0
                        ≡ ok r'))
                    same (refresh_opened u v e issued le active known))
          ]
        ]
