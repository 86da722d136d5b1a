-- ===== src/Client/Crypto.antt =====
-- The cryptography of Go's standard library that the client calls, as parameters, with what the
-- client relies on: `crypto/sha256`, AES-GCM (`crypto/aes`, `crypto/cipher`), X25519
-- (`crypto/ecdh`) and Ed25519 (`crypto/ed25519`).
pub mod Sample
use end_to_end_chat.Base.{◌≡◌, Bool, true, Bytes, length, ◌==◌, ◌||◌, Option, some}

pub record Crypto : Type 0 where
  pub sha256 : Bytes → Bytes
  -- `gcm.Seal(nil, nonce, plain, nil)` and `gcm.Open(nil, nonce, ciphertext, nil)` under a key
  pub seal : Bytes → Bytes → Bytes → Bytes
  pub unseal : Bytes → Bytes → Bytes → Option Bytes
  -- the public key of a private key, and `ourKey.ECDH(peerKey)`
  pub x25519 : Bytes → Bytes
  pub ecdh : Bytes → Bytes → Option Bytes
  -- the public key of a seed, `ed25519.Sign` and `ed25519.Verify`
  pub ed25519 : Bytes → Bytes
  pub sign : Bytes → Bytes → Bytes
  pub verify : Bytes → Bytes → Bytes → Bool
  pub length-sha256 : (b : Bytes) → length (sha256 b) ≡ 32
  pub unseal-seal : (key nonce plain : Bytes) → unseal key nonce (seal key nonce plain) ≡ some plain
  pub length-x25519 : (a : Bytes) → length (x25519 a) ≡ 32
  pub ecdh_agree :
      (a b shared : Bytes) → ecdh a (x25519 b) ≡ some shared → ecdh b (x25519 a) ≡ some shared
  pub length-ed25519 : (seed : Bytes) → length (ed25519 seed) ≡ 32
  pub length-sign : (seed msg : Bytes) → length (sign seed msg) ≡ 64
  pub verify-sign : (seed msg : Bytes) → verify (ed25519 seed) msg (sign seed msg) ≡ true

-- `aes.NewCipher` takes keys of 16, 24 and 32 bytes. `cipher.NewGCM` takes any AES cipher.
abbrev pub is_aes_key : Bytes → Bool
is_aes_key key = length key == 16 || length key == 24 || length key == 32
