-- ===== src/Wire/BigEndian.antt =====
-- `binary.BigEndian` of Go's standard library: `PutUint16`, `PutUint32` and `PutUint64` write a
-- number in 2, 4 or 8 bytes, the highest first, and `Uint16`, `Uint32` and `Uint64` read it.
use native.Mathlib.Nat.{pow-suc}
use end_to_end_chat.Base.{
  ℕ, zero, suc, ◌+◌, ◌*◌, ◌/◌, ◌%◌, ◌^◌, ◌<◌, ◌≡◌, refl, [], ◌∷◌, ◌++◌, arith, length,
  length-append, Bytes, IsByte, All, All-append,
}

-- The `w` bytes of `n`.
unfoldable pub put_be : ℕ → ℕ → Bytes
put_be zero n = []
put_be (suc w) n = put_be w (n / 256) ++ (n % 256) ∷ []

get_from : ℕ → Bytes → ℕ
get_from acc [] = acc
get_from acc (b ∷ bs) = get_from (acc * 256 + b) bs

unfoldable pub get_be : Bytes → ℕ
unfolding get_from
get_be bs = get_from 0 bs

pub length-put_be : (w n : ℕ) → length (put_be w n) ≡ w
unfolding put_be
length-put_be zero n = refl
length-put_be (suc w) n =
    rw (length-append (put_be w (n / 256)) ((n % 256) ∷ []))
      (omega (arith, length-put_be w (n / 256)))

pub put_be-IsByte : (w n : ℕ) → All IsByte (put_be w n)
unfolding put_be
put_be-IsByte zero n = tt
put_be-IsByte (suc w) n =
    All-append IsByte (put_be w (n / 256)) _ (put_be-IsByte w (n / 256)) (omega arith)

get_from-append :
    (acc : ℕ) (bs : Bytes) (b : ℕ) → get_from acc (bs ++ b ∷ []) ≡ get_from acc bs * 256 + b
unfolding get_from
get_from-append acc [] b = refl
get_from-append acc (x ∷ bs) b = get_from-append (acc * 256 + x) bs b

fits : (w n : ℕ) → n < 256 ^ suc w → n / 256 < 256 ^ w
fits w n h = omega (arith, pow-suc 256 w)

-- Reading back a number that fits its field.
pub get_be-put_be : (w n : ℕ) → n < 256 ^ w → get_be (put_be w n) ≡ n
unfolding get_be put_be get_from
get_be-put_be zero n h = omega arith
get_be-put_be (suc w) n h =
    rw (get_from-append 0 (put_be w (n / 256)) (n % 256))
      (omega (arith, get_be-put_be w (n / 256) (fits w n h)))
