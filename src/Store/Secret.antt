-- ===== src/Store/Secret.antt =====
-- store/store.go: the encryption of stored values under a key derived from the client's secret.
use end_to_end_chat.Base.{
  ◌≡◌, refl, true, false, Bytes, ◌++◌, Option, none, some, length, take, drop, ltb, arith,
  length-take, length-append, take-append_at, drop-append_at, not,
}
use end_to_end_chat.Base.Outcome.{Outcome, ok, err, ◌>>=◌, ◌>>◌, guard}
use end_to_end_chat.Config.{aes_key_size, nonce_size}
use end_to_end_chat.Client.Crypto.{is_aes_key}
use end_to_end_chat.Store.Defs.{
  Env, StoreError, new_cipher, invalid_ciphertext, open_failed, bad_base64,
}

-- A library's result with a flag, as the result of the store.
abbrev pub or_fail : {A : Type 0} → Option A → StoreError → Outcome StoreError A
or_fail none e = err e
or_fail (some a) e = ok a

module _ (e : Env) where
  unfoldable pub aes_key : Bytes → Bytes
  aes_key secret = take aes_key_size (e.sha512 secret)

  -- `nonce` is what `rand.Read` draws.
  unfoldable pub encrypt_raw : Bytes → Bytes → Bytes → Outcome StoreError Bytes
  encrypt_raw secret nonce plain = do
    guard (is_aes_key (aes_key secret)) new_cipher
    ok (nonce ++ e.crypto.seal (aes_key secret) nonce plain)

  unfoldable pub decrypt_raw : Bytes → Bytes → Outcome StoreError Bytes
  decrypt_raw secret input = do
    guard (is_aes_key (aes_key secret)) new_cipher
    guard (not (ltb (length input) nonce_size)) invalid_ciphertext
    or_fail (e.crypto.unseal (aes_key secret) (take nonce_size input) (drop nonce_size input))
        open_failed

  unfoldable pub encrypt : Bytes → Bytes → Bytes → Outcome StoreError Bytes
  unfolding encrypt_raw
  encrypt secret nonce plain = do raw ← encrypt_raw secret nonce plain; ok (e.base64 raw)

  unfoldable pub decrypt : Bytes → Bytes → Outcome StoreError Bytes
  unfolding decrypt_raw
  decrypt secret input = do raw ← or_fail (e.from_base64 input) bad_base64; decrypt_raw secret raw

  is_aes_key-aes_key : (secret : Bytes) → is_aes_key (aes_key secret) ≡ true
  unfolding aes_key
  is_aes_key-aes_key secret =
      rw (length-take aes_key_size (e.sha512 secret), e.length-sha512 secret) refl

  pub decrypt_raw-encrypt_raw :
      (secret nonce plain : Bytes)
      → length nonce ≡ nonce_size
      → (raw : Bytes) × (encrypt_raw secret nonce plain ≡ ok raw)
        × (decrypt_raw secret raw ≡ ok plain)
  unfolding encrypt_raw decrypt_raw
  decrypt_raw-encrypt_raw secret nonce plain h =
      let sealed = e.crypto.seal (aes_key secret) nonce plain in
      (
        nonce ++ sealed,
        rw (is_aes_key-aes_key secret) refl,
        rw
            (
              is_aes_key-aes_key secret,
              long_enough sealed,
              take-append_at nonce_size nonce sealed h,
              drop-append_at nonce_size nonce sealed h,
              e.crypto.unseal-seal (aes_key secret) nonce plain,
            )
            refl,
      )
    where
      long_enough : (sealed : Bytes) → ltb (length (nonce ++ sealed)) nonce_size ≡ false
      long_enough sealed = rw (length-append nonce sealed, h) (ground arith)

  -- Under a nonce of 12 bytes every value is encrypted, and decrypting the text under the same
  -- secret gives it back.
  pub decrypt-encrypt :
      (secret nonce plain : Bytes)
      → length nonce ≡ nonce_size
      → (text : Bytes) × (encrypt secret nonce plain ≡ ok text) × (decrypt secret text ≡ ok plain)
  unfolding encrypt decrypt
  decrypt-encrypt secret nonce plain h =
      let (raw, sealed, back) = decrypt_raw-encrypt_raw secret nonce plain h in
      (e.base64 raw, rw sealed refl, rw (e.from_base64-base64 raw) back)
