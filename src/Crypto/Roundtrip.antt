-- ===== src/Crypto/Roundtrip.antt =====
-- Encryption followed by decryption, and stored texts that are too short (internal/crypto).
use vaulthook.Prelude.{
  ℕ, ◌+◌, ◌*◌, ◌/◌, ◌%◌, ◌≡◌, ◌<◌, refl, ap, ◌∙◌, true, false, some, [], ◌∷◌, ◌++◌, arith, Text,
  ltb, length, length-append, take, drop, All,
}
use vaulthook.Prelude.Strings.{hex_encode, hex_decode, hex_digit, hex_value}
use vaulthook.Crypto.{
  Gcm, passed, panicked, nonce_size, encrypt_signing_key, unseal_decoded, decrypt_signing_key,
  ◌>>=◌,
}

hex_value-hex_digit : (n : ℕ) → n < 16 → hex_value (hex_digit n) ≡ some n
hex_value-hex_digit n h = ground arith

byte_parts : (b : ℕ) → b / 16 * 16 + b % 16 ≡ b
byte_parts b = omega arith

-- Decoding undoes encoding, for bytes.
pub hex_decode-hex_encode :
    (bs : Text) → All (λ b. b < 256) bs → hex_decode (hex_encode bs) ≡ some bs
unfolding hex_decode hex_encode
hex_decode-hex_encode [] h = refl
hex_decode-hex_encode (b ∷ bs) h =
    rw
      (
        hex_value-hex_digit (b / 16) (ground arith),
        hex_value-hex_digit (b % 16) (ground arith),
        hex_decode-hex_encode bs h.1,
      )
      (ap (λ (n : ℕ). some (n ∷ bs)) (byte_parts b))

All-append :
    (xs ys : Text) → All (λ b. b < 256) xs → All (λ b. b < 256) ys → All (λ b. b < 256) (xs ++ ys)
All-append [] ys h k = k
All-append (x ∷ xs) ys h k = (h.0, All-append xs ys h.1 k)

pub take-append-length : (xs ys : Text) → take (length xs) (xs ++ ys) ≡ xs
take-append-length [] ys = refl
take-append-length (x ∷ xs) ys = ap (λ (l : Text). x ∷ l) (take-append-length xs ys)

pub drop-append-length : (xs ys : Text) → drop (length xs) (xs ++ ys) ≡ ys
drop-append-length [] ys = refl
drop-append-length (x ∷ xs) ys = drop-append-length xs ys

-- A nonempty text that decodes, under a valid key: decryption goes on to open it.
decrypt-decoded :
    (gcm : Gcm) (key : Text) (h : ℕ) (rest c : Text)
    → hex_decode (h ∷ rest) ≡ some c
    → gcm.valid_key key ≡ true
    → decrypt_signing_key gcm key (h ∷ rest) ≡ unseal_decoded gcm key c
unfolding decrypt_signing_key
decrypt-decoded gcm key h rest c e valid = rw (e, valid, decrypt_signing_key)

decrypt-hex_encode :
    (gcm : Gcm) (key : Text) (b : ℕ) (bs : Text)
    → gcm.valid_key key ≡ true
    → All (λ c. c < 256) (b ∷ bs)
    → decrypt_signing_key gcm key (hex_encode (b ∷ bs)) ≡ unseal_decoded gcm key (b ∷ bs)
unfolding hex_encode
decrypt-hex_encode gcm key b bs valid h =
    decrypt-decoded gcm key _ _ (b ∷ bs) (hex_decode-hex_encode (b ∷ bs) h) valid

unseal_decoded-append :
    (gcm : Gcm) (key nonce plain : Text)
    → length nonce ≡ nonce_size
    → unseal_decoded gcm key (nonce ++ gcm.seal key nonce plain) ≡ passed plain
unfolding unseal_decoded
unseal_decoded-append gcm key nonce plain size =
    let sealed = gcm.seal key nonce plain in
    let long : ltb (length (nonce ++ sealed)) nonce_size ≡ false =
      ground (arith, length-append nonce sealed) in
    rw (
      long,
      ← size,
      take-append-length nonce sealed,
      drop-append-length nonce sealed,
      gcm.unseal_seal,
    )

-- With a valid master key and a nonce of 12 bytes, decrypting what encryption returned gives the
-- secret back.
pub decrypt-encrypt :
    (gcm : Gcm) (key nonce plain : Text)
    → gcm.valid_key key ≡ true
    → length nonce ≡ nonce_size
    → All (λ b. b < 256) nonce
    → (encrypt_signing_key gcm key (some nonce) plain >>= decrypt_signing_key gcm key)
      ≡ passed plain
unfolding encrypt_signing_key
decrypt-encrypt gcm key [] plain valid size h = absurd (omega arith)
decrypt-encrypt gcm key (b ∷ bs) plain valid size h =
    let bytes = All-append (b ∷ bs) _ h (gcm.seal_bytes key (b ∷ bs) plain) in
    rw valid (
      decrypt-hex_encode gcm key b (bs ++ gcm.seal key (b ∷ bs) plain) valid bytes
      ∙ unseal_decoded-append gcm key (b ∷ bs) plain size)

-- A stored secret that is the hexadecimal text of 1 to 11 bytes makes decryption panic, where its
-- comment promises an error.
pub decrypt-short_panics :
    (gcm : Gcm) (key bs : Text)
    → gcm.valid_key key ≡ true
    → All (λ b. b < 256) bs
    → 0 < length bs
    → length bs < nonce_size
    → decrypt_signing_key gcm key (hex_encode bs) ≡ panicked
unfolding unseal_decoded
decrypt-short_panics gcm key [] valid h p short = absurd (omega arith)
decrypt-short_panics gcm key (b ∷ bs) valid h p short =
    let few : ltb (length (b ∷ bs)) nonce_size ≡ true = ground arith in
    decrypt-hex_encode gcm key b bs valid h ∙ rw few
