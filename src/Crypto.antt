-- ===== src/Crypto.antt =====
-- internal/crypto: signing secrets are kept as the hexadecimal text of a nonce followed by the
-- AES-256-GCM ciphertext. The cipher is a parameter: a key's validity, sealing and opening, with the
-- law that opening undoes sealing.
pub mod Roundtrip
use vaulthook.Prelude.{
  ℕ, ◌≡◌, ◌<◌, Bool, true, false, Option, none, some, List, [], ◌∷◌, ◌++◌, Text, hex_encode,
  hex_decode, ltb, length, take, drop, All, if◌then◌else◌,
}
use vaulthook.Model.{Fault, encryption, decryption}

pub record Gcm : Type 0 where
  pub valid_key : Text → Bool
  pub seal : Text → Text → Text → Text
  pub unseal : Text → Text → Text → Option Text
  pub unseal_seal : (key nonce plain : Text) → unseal key nonce (seal key nonce plain) ≡ some plain
  pub seal_bytes : (key nonce plain : Text) → All (λ b. b < 256) (seal key nonce plain)

-- A call that returns a value, an error, or panics.
pub data Checked {ℓ} (A : Type ℓ) : Type ℓ where
  passed : A → Checked A
  refused : Fault → Checked A
  panicked : Checked A

infixl 5 ◌>>=◌
abbrev pub ◌>>=◌ {ℓ κ} : {A : Type ℓ} {B : Type κ} → Checked A → (A → Checked B) → Checked B
passed a >>= f = f a
refused e >>= f = refused e
panicked >>= f = panicked

-- `gcm.NonceSize()`
abbrev pub nonce_size : ℕ
nonce_size = 12

module _ (gcm : Gcm) (master_key : Text) where
  -- `EncryptSigningKey`, with the nonce that was read, or none where the source failed.
  unfoldable pub encrypt_signing_key : Option Text → Text → Checked Text
  encrypt_signing_key nonce plain =
      if gcm.valid_key master_key
      then elim nonce [
        | none ↦ refused encryption
        | some n ↦ passed (hex_encode (n ++ gcm.seal master_key n plain))
      ]
      else refused encryption

  abbrev pub opened : Option Text → Checked Text
  opened none = refused decryption
  opened (some plain) = passed plain

  -- The slices of `decodedCipherText` panic where it is shorter than a nonce.
  unfoldable pub unseal_decoded : Text → Checked Text
  unseal_decoded c =
      if ltb (length c) nonce_size
      then panicked
      else opened (gcm.unseal master_key (take nonce_size c) (drop nonce_size c))

  -- `DecryptSigningKey`
  unfoldable pub decrypt_signing_key : Text → Checked Text
  unfolding unseal_decoded
  decrypt_signing_key [] = passed []
  decrypt_signing_key (h ∷ encoded) = elim (hex_decode (h ∷ encoded)) [
    | none ↦ refused decryption
    | some c ↦ if gcm.valid_key master_key then unseal_decoded c else refused decryption
  ]
