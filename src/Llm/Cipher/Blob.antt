-- ===== src/Llm/Cipher/Blob.antt =====
-- The blob of a sealed key is read back (backend/app/llm/crypto.py).
use auto_apply.Common.{
  ℕ, ◌<◌, ◌/◌, ◌%◌, ◌≡◌, refl, Option, some, [], ◌∷◌, ◌++◌, Text, arith, false, ◌==◌, length, ◌+◌,
  ◌*◌,
}
use auto_apply.Common.Exec.{Outcome, ok, err}
use auto_apply.Llm.Cipher.{
  Primitives, CipherError, opened, open_parts, hex_digit, hex_value, hexlify, unhexlify, colon,
  partition, master_key, encrypt_provider_key, decrypt_provider_key,
}

abbrev pub Bytes : Text → Type 0
Bytes [] = Unit
Bytes (b ∷ s) = (b < 256) × Bytes s

hex_value-hex_digit : (n : ℕ) → n < 16 → hex_value (hex_digit n) ≡ some n
hex_value-hex_digit n h = ground arith

hex_digit-ne-colon : (n : ℕ) → n < 16 → (hex_digit n == colon) ≡ false
hex_digit-ne-colon n h = ground arith

byte_whole : (b : ℕ) → 16 * (b / 16) + b % 16 ≡ b
byte_whole b = omega arith

pub unhexlify-hexlify : (s : Text) → Bytes s → unhexlify (hexlify s) ≡ some s
unfolding hexlify unhexlify
unhexlify-hexlify [] h = refl
unhexlify-hexlify (b ∷ s) (small, h) =
    let high = hex_value-hex_digit (b / 16) (omega arith) in
    let low = hex_value-hex_digit (b % 16) (omega arith) in
    rw (high, low, unhexlify-hexlify s h, byte_whole b)

pub partition-hexlify :
    (s t : Text) → Bytes s → partition (hexlify s ++ colon ∷ t) ≡ some (hexlify s, t)
unfolding hexlify partition
partition-hexlify [] t h = refl
partition-hexlify (b ∷ s) t (small, h) =
    let high = hex_digit-ne-colon (b / 16) (omega arith) in
    let low = hex_digit-ne-colon (b % 16) (omega arith) in rw (high, low, partition-hexlify s t h)

open_parts-hexlify :
    (p : Primitives) (key nonce ciphertext : Text)
    → 0 < length nonce
    → 0 < length ciphertext
    → Bytes nonce
    → Bytes ciphertext
    → open_parts p key (some (hexlify nonce, hexlify ciphertext))
      ≡ opened p (p.unseal key nonce ciphertext)
unfolding hexlify
open_parts-hexlify p key [] ct h k bn bc = absurd (omega arith)
open_parts-hexlify p key (b ∷ n) [] h k bn bc = absurd (omega arith)
open_parts-hexlify p key (b ∷ n) (d ∷ ct) h k bn bc =
    let first = unhexlify-hexlify (b ∷ n) bn in
    let second = unhexlify-hexlify (d ∷ ct) bc in rw (first, second)

-- a sealed key, opened with the same master key
abbrev pub read_back :
    Primitives → Option Text → Outcome CipherError Text → Outcome CipherError Text
read_back p env (err e) = err e
read_back p env (ok blob) = decrypt_provider_key p env blob

-- A provider's key that is sealed is read back under the same master key, if that has 32 bytes,
-- the nonce and the ciphertext are not empty and consist of bytes, and AES-GCM and UTF-8 give
-- back what they were given.
pub encrypt_provider_key-decrypt :
    (p : Primitives) (env : Option Text) (key nonce bytes s : Text) (c : ℕ)
    → master_key p env ≡ ok key
    → p.encode (c ∷ s) ≡ some bytes
    → p.decode bytes ≡ some (c ∷ s)
    → p.unseal key nonce (p.seal key nonce bytes) ≡ some bytes
    → (0 < length nonce) × Bytes nonce
    → (0 < length (p.seal key nonce bytes)) × Bytes (p.seal key nonce bytes)
    → read_back p env (encrypt_provider_key p env nonce (c ∷ s)) ≡ ok (c ∷ s)
unfolding encrypt_provider_key decrypt_provider_key
encrypt_provider_key-decrypt p env key nonce bytes s c m e d u (ln, bn) (lc, bc) =
    let sealed = p.seal key nonce bytes in
    let parts = partition-hexlify nonce (hexlify sealed) bn in
    let opens = open_parts-hexlify p key nonce sealed ln lc bn bc in
    rw (m, e, m, parts, opens, u, d)
