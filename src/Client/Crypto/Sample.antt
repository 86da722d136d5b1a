-- ===== src/Client/Crypto/Sample.antt =====
-- A toy cryptography that meets the laws: a cipher that does not hide, one shared secret for all,
-- and signatures that are always valid.
use end_to_end_chat.Base.{
  ℕ, zero, suc, ◌≡◌, refl, ap, true, Bytes, ◌∷◌, [], some, length, replicate,
}
use end_to_end_chat.Client.Crypto.{Crypto}

-- The first `n` bytes, with zeros behind a shorter text.
abbrev pub pad : ℕ → Bytes → Bytes
pad zero b = []
pad (suc n) [] = 0 ∷ pad n []
pad (suc n) (x ∷ b) = x ∷ pad n b

pub length-pad : (n : ℕ) (b : Bytes) → length (pad n b) ≡ n
length-pad zero b = refl
length-pad (suc n) [] = ap suc (length-pad n [])
length-pad (suc n) (x ∷ b) = ap suc (length-pad n b)

abbrev pub toy : Crypto
toy = record {
  sha256 = pad 32;
  seal = λ key nonce plain. plain;
  unseal = λ key nonce cipher. some cipher;
  x25519 = pad 32;
  ecdh = λ own other. some (replicate 32 9);
  ed25519 = pad 32;
  sign = λ seed text. replicate 64 0;
  verify = λ key text sig. true;
  length-sha256 = length-pad 32;
  unseal-seal = λ key nonce plain. refl;
  length-x25519 = length-pad 32;
  ecdh_agree = λ a b shared e. e;
  length-ed25519 = length-pad 32;
  length-sign = λ seed text. refl;
  verify-sign = λ seed text. refl;
}
