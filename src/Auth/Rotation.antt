-- ===== src/Auth/Rotation.antt =====
-- Refresh tokens: one is accepted once, whatever happens after it was used.
use auto_apply.Common.{
  ℕ, ◌+◌, ◌≤◌, String, ◌≡◌, ◌≢◌, refl, arith, Bool-cases, inl, inr, ◌∙◌, map, any_of, Option-cases,
  ap,
}
use auto_apply.Common.Exec.{Outcome, ok, err, continue, settle}
use auto_apply.Auth.Store.{
  Accounts, AuthError, token_invalid, revoke_row, is_active_session, revoke_active_session,
  get_user_by_id,
}
use auto_apply.Auth.Tokens.{
  Crypto, Claims, Decoded, payload, expired_signature, invalid_token, refresh_ttl, refresh_subject,
  decode_token, subject, session_id, checked_claims, refresh_type,
}
use auto_apply.Auth.Service.{refresh, RefreshResult, rotate, logout, restore, tokens_for}
use auto_apply.Auth.Sessions.{Spent, Spent-any_of, revoke-Spent, Spent-later, Spent-insert}
use auto_apply.Auth.Steps.{Steps, Steps-Spent}

-- What `jwt.decode` reads in a token does not change with the time; only whether it accepts it does.
abbrev pub Steady : Crypto → Type 0
Steady crypto =
    (token : String) (now later : ℕ) (c d : Claims)
    → crypto.jwt_decode now token ≡ payload c
    → crypto.jwt_decode later token ≡ payload d
    → c ≡ d

module _ (crypto : Crypto) where
  -- the decision of `refresh`, by the subject of the token
  abbrev pub rotated :
      ℕ
      → String
      → Outcome AuthError (ℕ × String)
      → Accounts
      → Outcome AuthError RefreshResult × Accounts
  rotated now jti o w =
      continue o
        (λ q v.
          continue (settle restore v (rotate crypto now q.0 q.1 jti v)).0
            (λ k x. (ok (tokens_for crypto now q.0 jti k), x))
            (settle restore v (rotate crypto now q.0 q.1 jti v)).1)
        w

  refresh-eq-rotated :
      (now : ℕ) (jti token : String) (w : Accounts)
      → refresh crypto now jti token w ≡ rotated now jti (refresh_subject crypto now token) w
  unfolding refresh
  refresh-eq-rotated now jti token w = refl

  -- where no row is active, a rotation is refused and changes nothing
  rotated_unopened :
      (now u : ℕ) (old jti : String) (w : Accounts)
      → Spent u (crypto.sha256_hex old) now w.sessions
      → rotated now jti (ok (u, old)) w ≡ (err token_invalid, w)
  unfolding rotate revoke_active_session
  rotated_unopened now u old jti w p = rw (Spent-any_of u (crypto.sha256_hex old) now w.sessions p)

  rotated-Spent :
      (now u : ℕ) (old jti : String) (w : Accounts) (r : RefreshResult)
      → crypto.sha256_hex jti ≢ crypto.sha256_hex old
      → (rotated now jti (ok (u, old)) w).0 ≡ ok r
      → Spent u (crypto.sha256_hex old) now (rotated now jti (ok (u, old)) w).1.sessions
  unfolding rotate revoke_active_session
  rotated-Spent now u old jti w r ne e =
      let h = crypto.sha256_hex old in
      let w' = record w { sessions = map (revoke_row u h now) w.sessions } in
      elim (Bool-cases (any_of (is_active_session u h now) w.sessions)) [
        | inr a ↦ let bad = (rw a at e) in cc
        | inl a ↦ elim (Option-cases (get_user_by_id u w')) [
          | inl b ↦ let bad = (rw (a, b) at e) in cc
          | inr (n, b) ↦
              rw (a, b)
                (Spent-insert u h now u (crypto.sha256_hex jti) (now + refresh_ttl) w' ne
                  (revoke-Spent u h now w.sessions))
        ]
      ]

  same_subject :
      (steady : Steady crypto) (now later : ℕ) (token : String) (q q' : ℕ × String)
      → refresh_subject crypto now token ≡ ok q
      → refresh_subject crypto later token ≡ ok q'
      → q' ≡ q
  unfolding refresh_subject decode_token
  same_subject steady now later token q q' e e' =
      go (crypto.jwt_decode now token) (crypto.jwt_decode later token) refl refl e e'
    where
      go :
          (a b : Decoded)
          → crypto.jwt_decode now token ≡ a
          → crypto.jwt_decode later token ≡ b
          → session_id crypto now (subject crypto now (checked_claims crypto now refresh_type a))
            ≡ ok q
          → session_id crypto later
              (subject crypto later (checked_claims crypto later refresh_type b))
            ≡ ok q'
          → q' ≡ q
      go (payload c) (payload d) x y f g = let same = steady token now later c d x y in ground arith
      go expired_signature b x y f g = cc
      go invalid_token b x y f g = cc
      go (payload c) expired_signature x y f g = cc
      go (payload c) invalid_token x y f g = cc

  -- A refresh that neither issues tokens nor changes anything.
  abbrev pub Refused : ℕ → String → String → Accounts → Type 0
  Refused later jti token v =
      ((r : RefreshResult) → (refresh crypto later jti token v).0 ≢ ok r)
      × ((refresh crypto later jti token v).1 ≡ v)

  Spent-Refused :
      (steady : Steady crypto) (now later u : ℕ) (old jti token : String) (v : Accounts)
      → refresh_subject crypto now token ≡ ok (u, old)
      → now ≤ later
      → Spent u (crypto.sha256_hex old) now v.sessions
      → Refused later jti token v
  Spent-Refused steady now later u old jti token v e le p =
      rw (refresh-eq-rotated later jti token v) (
        go (refresh_subject crypto later token)
          (λ q f. same_subject steady now later token (u, old) q e f))
    where
      go :
          (o : Outcome AuthError (ℕ × String))
          → ((q : ℕ × String) → o ≡ ok q → q ≡ (u, old))
          → ((r : RefreshResult) → (rotated later jti o v).0 ≢ ok r)
            × ((rotated later jti o v).1 ≡ v)
      go (err x) same = (λ r f. cc, refl)
      go (ok q) same = rw (same q refl) (
          rw
            (rotated_unopened later u old jti v
              (Spent-later u (crypto.sha256_hex old) now later v.sessions le p))
            (λ r f. cc, refl))

  -- A refresh token is accepted once: after a refresh with it has succeeded, and after any further
  -- operations of the service that draw other `jti`s, a refresh with it is refused and changes
  -- nothing, if what a token holds does not change with the time.
  pub refresh_once :
      (steady : Steady crypto) (now later u : ℕ) (old jti jti' token : String) (w v : Accounts)
      (r : RefreshResult)
      → refresh_subject crypto now token ≡ ok (u, old)
      → crypto.sha256_hex jti ≢ crypto.sha256_hex old
      → (refresh crypto now jti token w).0 ≡ ok r
      → Steps crypto (crypto.sha256_hex old) (refresh crypto now jti token w).1 v
      → now ≤ later
      → Refused later jti' token v
  refresh_once steady now later u old jti jti' token w v r e ne won steps le =
      let first : refresh crypto now jti token w ≡ rotated now jti (ok (u, old)) w =
        refresh-eq-rotated now jti token w ∙ ap (λ o. rotated now jti o w) e in
      let p : Spent u (crypto.sha256_hex old) now (refresh crypto now jti token w).1.sessions =
        rw first (rotated-Spent now u old jti w r ne (rw first at won)) in
      Spent-Refused steady now later u old jti' token v e le
        (Steps-Spent crypto u (crypto.sha256_hex old) now steps p)

  -- A refresh token is refused after the logout with it, and after any further operations of the
  -- service that draw other `jti`s, if what a token holds does not change with the time.
  pub refresh_after_logout :
      (steady : Steady crypto) (now later u : ℕ) (old jti token : String) (w v : Accounts)
      → refresh_subject crypto now token ≡ ok (u, old)
      → Steps crypto (crypto.sha256_hex old) (logout crypto now token w).1 v
      → now ≤ later
      → Refused later jti token v
  unfolding logout revoke_active_session
  refresh_after_logout steady now later u old jti token w v e steps le =
      let h = crypto.sha256_hex old in
      let p : Spent u h now (logout crypto now token w).1.sessions =
        rw (e, logout, revoke_active_session) (revoke-Spent u h now w.sessions) in
      Spent-Refused steady now later u old jti token v e le (Steps-Spent crypto u h now steps p)
