-- ===== src/Auth/Keys.antt =====
-- API keys (backend/app/db/repositories/auth_repository.py, lines 84-137). What the code draws at
-- random comes as an argument, and row-level security is the test on the user's id.
use auto_apply.Common.{
  ℕ, String, ◌≡◌, Bool, not, ◌&&◌, Option, none, some, List, [], ◌∷◌, ◌++◌, ◌==◌, str_eq,
  str_eq_refl, find_first, any_of, keep, map, if◌then◌else◌, Bool-cases, inl, inr, arith,
}

pub record ApiKey : Type 0 where
  pub id : ℕ
  pub user_id : ℕ
  pub name : String
  pub prefix : String
  pub key_hash : String
  pub last_used_at : Option ℕ
  pub expires_at : Option ℕ

-- The caller is handed the row and, this once, the secret.
pub record Issued : Type 0 where
  pub row : ApiKey
  pub secret : String

-- `secret` is `{user_id}:{token_urlsafe(32)}`, `prefix` is `aa_` and twelve hexadecimal digits.
unfoldable pub create_api_key :
    (String → String)
    → (id user_id : ℕ) (prefix secret name : String) (expires_at : Option ℕ) → List ApiKey
    → Issued × List ApiKey
create_api_key sha256_hex id user_id prefix secret name expires_at keys =
    let row : ApiKey = record {
      id = id;
      user_id = user_id;
      name = name;
      prefix = prefix;
      key_hash = sha256_hex secret;
      last_used_at = none;
      expires_at = expires_at;
    } in
    (record { row = row; secret = secret }, keys ++ row ∷ [])

unfoldable pub find_api_key_by_prefix : ℕ → String → List ApiKey → Option ApiKey
find_api_key_by_prefix user_id prefix keys =
    find_first (λ k. str_eq k.prefix prefix && k.user_id == user_id) keys

abbrev pub is_key : ℕ → ℕ → ApiKey → Bool
is_key user_id api_key_id k = k.id == api_key_id && k.user_id == user_id

-- Whether a row was deleted, and the table without it.
unfoldable pub revoke_api_key : (user_id api_key_id : ℕ) → List ApiKey → Bool × List ApiKey
revoke_api_key user_id api_key_id keys =
    (any_of (is_key user_id api_key_id) keys, keep (λ k. not (is_key user_id api_key_id k)) keys)

abbrev pub touched : ℕ → ℕ → ℕ → ApiKey → ApiKey
touched user_id api_key_id now k =
    if is_key user_id api_key_id k then record k { last_used_at = some now } else k

unfoldable pub touch_api_key : (user_id api_key_id now : ℕ) → List ApiKey → List ApiKey
touch_api_key user_id api_key_id now keys = map (touched user_id api_key_id now) keys

-- A new key is found by its prefix, with the hash of its secret, if no key of the user has that
-- prefix.
create_api_key-find :
    (sha256_hex : String → String) (id user_id : ℕ) (prefix secret name : String)
    (expires_at : Option ℕ) (keys : List ApiKey)
    → find_api_key_by_prefix user_id prefix keys ≡ none
    → find_api_key_by_prefix user_id prefix
        (create_api_key sha256_hex id user_id prefix secret name expires_at keys).1
      ≡ some (create_api_key sha256_hex id user_id prefix secret name expires_at keys).0.row
unfolding create_api_key find_api_key_by_prefix
create_api_key-find sha256_hex id user_id prefix secret name expires_at [] e =
    rw (str_eq_refl prefix) (ground arith)
create_api_key-find sha256_hex id user_id prefix secret name expires_at (k ∷ keys) e =
    elim (Bool-cases (str_eq k.prefix prefix && k.user_id == user_id)) [
      | inl b ↦ let bad = (rw b at e) in cc
      | inr b ↦
          rw b (
            create_api_key-find sha256_hex id user_id prefix secret name expires_at keys
              (rw b at e))
    ]
