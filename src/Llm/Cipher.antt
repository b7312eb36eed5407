-- ===== src/Llm/Cipher.antt =====
-- The keys of providers at rest (backend/app/llm/crypto.py). Bytes are numbers below 256; AES-GCM and
-- UTF-8 are parameters.
pub mod Blob
mod Tests
use auto_apply.Common.{
  ℕ, ◌+◌, ◌-◌, ◌*◌, ◌/◌, ◌%◌, ◌==◌, ltb, Option, none, some, [], ◌∷◌, ◌++◌, Text, length,
  if◌then◌else◌,
}
use auto_apply.Common.Exec.{Outcome, ok, err}
use auto_apply.Llm.JsonText.{between}

pub data CipherError : Type 0 where
  master_key_error decryption_error value_error unicode_error : CipherError

-- `seal` and `unseal` are the methods of AESGCM, by key and nonce; `unseal` has no value where it raises
-- InvalidTag or ValueError, and `encode` and `decode` have none where they raise.
pub record Primitives : Type 0 where
  pub seal : Text → Text → Text → Text
  pub unseal : Text → Text → Text → Option Text
  pub encode : Text → Option Text
  pub decode : Text → Option Text

abbrev pub hex_digit : ℕ → ℕ
hex_digit n = if ltb n 10 then 48 + n else 87 + n

abbrev pub hex_value : ℕ → Option ℕ
hex_value c =
    if between 48 57 c
    then some (c - 48)
    else if between 97 102 c
    then some (c - 87)
    else if between 65 70 c
    then some (c - 55)
    else none

unfoldable pub hexlify : Text → Text
hexlify [] = []
hexlify (b ∷ bytes) = hex_digit (b / 16) ∷ hex_digit (b % 16) ∷ hexlify bytes

abbrev pub byte_of : Option ℕ → Option ℕ → Option Text → Option Text
byte_of (some high) (some low) (some bytes) = some ((16 * high + low) ∷ bytes)
byte_of _ _ _ = none

-- `none` where it raises
unfoldable pub unhexlify : Text → Option Text
unhexlify [] = some []
unhexlify (c ∷ []) = none
unhexlify (c ∷ d ∷ s) = byte_of (hex_value c) (hex_value d) (unhexlify s)

abbrev pub colon : ℕ
colon = b':'

abbrev pub cons_first : ℕ → Option (Text × Text) → Option (Text × Text)
cons_first c none = none
cons_first c (some (s, t)) = some (c ∷ s, t)

-- `blob.partition(":")`, `none` where there is no colon
unfoldable pub partition : Text → Option (Text × Text)
partition [] = none
partition (c ∷ s) = let rest = partition s in if c == colon then some ([], s) else cons_first c rest

abbrev pub sized_key : Option Text → Outcome CipherError Text
sized_key none = err unicode_error
sized_key (some key) = if length key == 32 then ok key else err master_key_error

-- the environment's value, if it is set
abbrev pub master_key : Primitives → Option Text → Outcome CipherError Text
master_key p none = err master_key_error
master_key p (some raw) = sized_key (p.encode raw)

abbrev pub sealed_blob : Primitives → Text → Text → Option Text → Outcome CipherError Text
sealed_blob p key nonce none = err unicode_error
sealed_blob p key nonce (some bytes) =
    ok (hexlify nonce ++ colon ∷ hexlify (p.seal key nonce bytes))

abbrev pub sealed_with :
    Primitives → Text → Text → Outcome CipherError Text → Outcome CipherError Text
sealed_with p nonce plaintext (err e) = err e
sealed_with p nonce plaintext (ok key) = sealed_blob p key nonce (p.encode plaintext)

-- `nonce` is what `os.urandom` draws.
unfoldable pub encrypt_provider_key :
    Primitives → Option Text → Text → Text → Outcome CipherError Text
encrypt_provider_key p env nonce [] = err value_error
encrypt_provider_key p env nonce (c ∷ s) = sealed_with p nonce (c ∷ s) (master_key p env)

abbrev pub decoded : Option Text → Outcome CipherError Text
decoded none = err unicode_error
decoded (some s) = ok s

abbrev pub opened : Primitives → Option Text → Outcome CipherError Text
opened p none = err decryption_error
opened p (some bytes) = decoded (p.decode bytes)

abbrev pub open_bytes : Primitives → Text → Option Text → Option Text → Option Text
open_bytes p key (some nonce) (some ciphertext) = p.unseal key nonce ciphertext
open_bytes p key _ _ = none

-- the parts of the blob, where it has a colon
abbrev pub open_parts : Primitives → Text → Option (Text × Text) → Outcome CipherError Text
open_parts p key (some (n ∷ nonce, c ∷ ciphertext)) =
    opened p (open_bytes p key (unhexlify (n ∷ nonce)) (unhexlify (c ∷ ciphertext)))
open_parts p key _ = err decryption_error

abbrev pub opened_with : Primitives → Text → Outcome CipherError Text → Outcome CipherError Text
opened_with p blob (err e) = err e
opened_with p blob (ok key) = open_parts p key (partition blob)

unfoldable pub decrypt_provider_key : Primitives → Option Text → Text → Outcome CipherError Text
decrypt_provider_key p env blob = opened_with p blob (master_key p env)
