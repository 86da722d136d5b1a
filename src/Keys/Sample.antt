-- ===== src/Keys/Sample.antt =====
-- A toy form of hexadecimal text that meets the laws: a byte and a zero.
use end_to_end_chat.Base.{ℕ, ◌*◌, ◌≡◌, refl, Bytes, [], ◌∷◌, Option, none, some, length, arith}
use end_to_end_chat.Keys.Defs.{Hex}

abbrev spread : Bytes → Bytes
spread [] = []
spread (x ∷ b) = x ∷ 0 ∷ spread b

abbrev consed : ℕ → Option Bytes → Option Bytes
consed x none = none
consed x (some b) = some (x ∷ b)

abbrev gathered : Bytes → Option Bytes
gathered [] = some []
gathered (x ∷ []) = none
gathered (x ∷ _ ∷ b) = consed x (gathered b)

pub gathered-spread : (b : Bytes) → gathered (spread b) ≡ some b
gathered-spread [] = refl
gathered-spread (x ∷ b) = rw (gathered-spread b) refl

pub length-spread : (b : Bytes) → length (spread b) ≡ 2 * length b
length-spread [] = refl
length-spread (x ∷ b) = omega (arith, length-spread b)

abbrev pub toy_hex : Hex
toy_hex = record {
  encode = spread;
  decode = gathered;
  decode-encode = gathered-spread;
  length-encode = length-spread;
}
