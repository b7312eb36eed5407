-- ===== src/Llm/Cipher/Tests.antt =====
-- Runs of the cipher with a toy primitive.
use auto_apply.Common.{◌≡◌, refl, arith, Option, none, some, [], ◌∷◌, Text, codes}
use auto_apply.Common.Exec.{ok, err}
use auto_apply.Llm.Cipher.{
  Primitives, decryption_error, master_key_error, hexlify, encrypt_provider_key,
  decrypt_provider_key, partition,
}
use auto_apply.Llm.Cipher.Blob.{read_back, encrypt_provider_key-decrypt}

-- one byte that stands for the tag
abbrev behind_tag : Text → Option Text
behind_tag [] = none
behind_tag (t ∷ s) = some s

abbrev tagging : Primitives
tagging = record {
  seal = λ key nonce s. 255 ∷ s;
  unseal = λ key nonce s. behind_tag s;
  encode = λ s. some s;
  decode = λ s. some s;
}

abbrev long_key : Text
long_key = codes "0123456789abcdef0123456789abcdef"

sealed_run :
    encrypt_provider_key tagging (some long_key) (1 ∷ 171 ∷ []) (codes "k") ≡ ok (codes "01ab:ff6b")
unfolding encrypt_provider_key hexlify
sealed_run = refl

no_colon : decrypt_provider_key tagging (some long_key) (codes "01ab") ≡ err decryption_error
unfolding decrypt_provider_key partition
no_colon = refl

short_key :
    decrypt_provider_key tagging (some (codes "short")) (codes "01:ff") ≡ err master_key_error
unfolding decrypt_provider_key partition
short_key = refl

encrypt_provider_key-decrypt_example :
    read_back tagging
      (some long_key)
      (encrypt_provider_key tagging (some long_key) (1 ∷ 171 ∷ []) (codes "k"))
    ≡ ok (codes "k")
encrypt_provider_key-decrypt_example =
    encrypt_provider_key-decrypt tagging (some long_key) long_key (1 ∷ 171 ∷ []) (codes "k") [] 107
      refl refl refl refl (omega arith, (omega arith, (omega arith, tt)))
      (omega arith, (omega arith, (omega arith, tt)))
