-- ===== src/Wire/Reader.antt =====
-- The readers: a decoder walks `data` by an offset `off`, tests `len(data) < off+n` before it
-- slices `data[off:off+n]`, and moves the offset on.
pub mod Decodes
pub mod Crashes
pub mod Safe
pub mod Yields
use mathlib.Core.List.{append_assoc, append-nil}
use native.Mathlib.Nat.{add_assoc}
use end_to_end_chat.Base.{
  ℕ, ◌+◌, ◌-◌, ◌^◌, ◌≤◌, ◌<◌, ◌≡◌, ◌≢◌, refl, sym, ap, subst, ◌∙◌, true, [], ◌++◌, arith, length,
  length-append, take, drop, take-append, drop-append, drop-drop, Bytes, leb, le→leb, leb→le,
  Bool-cases, inl, inr, if◌then◌else◌,
}
use end_to_end_chat.Base.Outcome.{Outcome, ok, err, panic, Panic, out_of_range}
use end_to_end_chat.Base.Outcome
use end_to_end_chat.Wire.BigEndian.{put_be, get_be, length-put_be, get_be-put_be}

-- A decoder reads `data` at an offset and returns a value and the new offset.
abbrev pub Reader : Type 0 → Type 0 → Type 0
Reader E A = Bytes → ℕ → Outcome E (A × ℕ)

pub then_read : {E A B : Type 0} → Reader E A → (A → Reader E B) → Reader E B
then_read m f input off = Outcome.◌>>=◌ (m input off) λ r. f r.0 input r.1

infixl 5 ◌>>=◌ ◌>>◌
abbrev pub ◌>>=◌ : {E A B : Type 0} → Reader E A → (A → Reader E B) → Reader E B
◌>>=◌ = then_read

abbrev pub ◌>>◌ : {E B : Type 0} → Reader E (Unit {0}) → Reader E B → Reader E B
m >> k = then_read m λ _. k

-- `if len(data) < off+n { return e }`
pub need : {E : Type 0} → ℕ → E → Reader E (Unit {0})
need n e input off = if leb (off + n) (length input) then ok (tt, off) else err e

-- `data[off:off+n]; off += n`. The slice expression panics past the end.
pub take_bytes : {E : Type 0} → ℕ → Reader E Bytes
take_bytes n input off =
    if leb (off + n) (length input)
    then ok (take n (drop off input), off + n)
    else panic out_of_range

-- `binary.BigEndian.UintN(data[off:]); off += w`, which panics on less than `w` bytes.
pub take_uint : {E : Type 0} → ℕ → Reader E ℕ
take_uint w input off =
    if leb (off + w) (length input)
    then ok (get_be (take w (drop off input)), off + w)
    else panic out_of_range

unfoldable pub return : {E A : Type 0} → A → Reader E A
return a input off = ok (a, off)

-- A computation that does not read.
unfoldable pub lift : {E A : Type 0} → Outcome E A → Reader E A
lift r input off = Outcome.◌>>=◌ r λ a. ok (a, off)

-- The value that a decoder reads from the start of `data`.
unfoldable pub read_all : {E A : Type 0} → Reader E A → Bytes → Outcome E A
read_all m input = Outcome.◌>>=◌ (m input 0) λ r. ok r.0
