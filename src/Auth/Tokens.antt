-- ===== src/Auth/Tokens.antt =====
-- Tokens and passwords (backend/app/auth/security.py). The JWT library, bcrypt and SHA-256 are
-- parameters. Times are microseconds.
use auto_apply.Common.{
  ℕ, ◌+◌, String, Bool, not, Option, none, some, Text, str_eq, is_empty_text, if◌then◌else◌,
}
use auto_apply.Common.Exec.{Outcome, ok, err}
use auto_apply.Auth.Store.{AuthError, token_expired, token_invalid, value_error}

-- the claims beside `iat` and `exp`
pub record Claims : Type 0 where
  pub sub : String
  pub email : Option Text
  pub typ : String
  pub jti : Option String

-- what `jwt.decode` returns or raises; a missing required claim makes the token invalid
pub data Decoded : Type 0 where
  payload : Claims → Decoded
  expired_signature invalid_token : Decoded

pub record Crypto : Type 0 where
  pub jwt_encode : Claims → (iat exp : ℕ) → String
  pub jwt_decode : ℕ → String → Decoded
  pub uuid_text : ℕ → String
  pub uuid_read : String → Option ℕ
  pub sha256_hex : String → String
  -- bcrypt under a salt, and its check, false where the hash is malformed
  pub hashpw : String → Text → String
  pub checkpw : Text → String → Bool
  -- `str.lower`, and the classes `\w` and `\d` of a pattern
  pub lower : Text → Text
  pub is_word : ℕ → Bool
  pub is_digit : ℕ → Bool

abbrev pub access_ttl : ℕ
access_ttl = 900_000_000

abbrev pub refresh_ttl : ℕ
refresh_ttl = 604_800_000_000

abbrev pub access_type : String
access_type = "access"

abbrev pub refresh_type : String
refresh_type = "refresh"

module _ (crypto : Crypto) (now : ℕ) where
  unfoldable pub create_access_token : ℕ → Text → String
  create_access_token user_id email =
      crypto.jwt_encode
        (record {
          sub = crypto.uuid_text user_id;
          email = some email;
          typ = access_type;
          jti = none;
        })
        now (now + access_ttl)

  abbrev pub refresh_claims : ℕ → String → Claims
  refresh_claims user_id jti = record {
    sub = crypto.uuid_text user_id;
    email = none;
    typ = refresh_type;
    jti = some jti;
  }

  -- the token for a random `jti`
  unfoldable pub create_refresh_token : ℕ → String → String
  create_refresh_token user_id jti =
      crypto.jwt_encode (refresh_claims user_id jti) now (now + refresh_ttl)

  -- the checks behind `jwt.decode`
  abbrev pub checked_claims : String → Decoded → Outcome AuthError Claims
  checked_claims expected_type expired_signature = err token_expired
  checked_claims expected_type invalid_token = err token_invalid
  checked_claims expected_type (payload p) =
      if not (str_eq p.typ expected_type)
      then err token_invalid
      else if is_empty_text p.sub
      then err token_invalid
      else ok p

  unfoldable pub decode_token : String → String → Outcome AuthError Claims
  decode_token token expected_type = checked_claims expected_type (crypto.jwt_decode now token)

  -- `uuid.UUID(payload["sub"])`
  abbrev pub subject : Outcome AuthError Claims → Outcome AuthError (ℕ × Claims)
  subject (err e) = err e
  subject (ok p) = elim (crypto.uuid_read p.sub) [ none ↦ err value_error | some u ↦ ok (u, p) ]

  -- `payload.get("jti")`, refused where it is missing or empty
  abbrev pub session_id : Outcome AuthError (ℕ × Claims) → Outcome AuthError (ℕ × String)
  session_id (err e) = err e
  session_id (ok (u, p)) = elim p.jti [
    | none ↦ err token_invalid
    | some j ↦ if is_empty_text j then err token_invalid else ok (u, j)
  ]

  -- the user and the `jti` of a presented refresh token
  unfoldable pub refresh_subject : String → Outcome AuthError (ℕ × String)
  unfolding decode_token
  refresh_subject token = session_id (subject (decode_token token refresh_type))
