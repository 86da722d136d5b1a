-- ===== src/Client/Codec/Lengths.antt =====
-- client/client.go: the checked conversions of lengths and sizes. A failed check panics.
use end_to_end_chat.Base.{
  ℕ, ◌-◌, ◌^◌, ◌≤◌, ◌<◌, ◌≡◌, refl, arith, ℤ, pos, negsuc, IsInt64Nat, ltb, if◌then◌else◌, ◌≢◌,
}
use end_to_end_chat.Base.Outcome.{Outcome, ok, panic, overflow, negative, out_of_range}

abbrev pub len_prefix_size : ℕ
len_prefix_size = 2

-- The lengths are never negative, so that test of the source is left out.
pub u16_len : {E : Type 0} → ℕ → Outcome E ℕ
u16_len n = if ltb 65535 n then panic overflow else ok n

pub u32_len : {E : Type 0} → ℕ → Outcome E ℕ
u32_len n = if ltb 4294967295 n then panic overflow else ok n

pub u64_from_int64 : {E : Type 0} → ℤ → Outcome E ℕ
u64_from_int64 (pos n) = ok n
u64_from_int64 (negsuc n) = panic negative

pub int64_from_u64 : {E : Type 0} → ℕ → Outcome E ℤ
int64_from_u64 n = if ltb (2 ^ 63 - 1) n then panic overflow else ok (pos n)

abbrev pub magnitude : ℤ → ℕ
magnitude (pos n) = n
magnitude (negsuc n) = n

module _ {E : Type 0} where
  pub u16_len-ok : (n : ℕ) → n < 2 ^ 16 → u16_len {E = E} n ≡ ok n
  unfolding u16_len
  u16_len-ok n h = ground arith

  pub u32_len-ok : (n : ℕ) → n < 2 ^ 32 → u32_len {E = E} n ≡ ok n
  unfolding u32_len
  u32_len-ok n h = ground arith

  pub u64_from_int64-ok : (z : ℤ) → IsInt64Nat z → u64_from_int64 {E = E} z ≡ ok (magnitude z)
  unfolding u64_from_int64
  u64_from_int64-ok (pos n) h = refl
  u64_from_int64-ok (negsuc n) h = absurd h

  pub int64_from_u64-ok : (z : ℤ) → IsInt64Nat z → int64_from_u64 {E = E} (magnitude z) ≡ ok z
  unfolding int64_from_u64
  int64_from_u64-ok (pos n) h = ground arith
  int64_from_u64-ok (negsuc n) h = absurd h

  pub int64_from_u64-overflow : (n : ℕ) → 2 ^ 63 ≤ n → int64_from_u64 {E = E} n ≡ panic overflow
  unfolding int64_from_u64
  int64_from_u64-overflow n h = ground arith

  pub int64_from_u64-ne-out_of_range : (n : ℕ) → int64_from_u64 {E = E} n ≢ panic out_of_range
  unfolding int64_from_u64
  int64_from_u64-ne-out_of_range n e = ground arith

pub magnitude_fits : (z : ℤ) → IsInt64Nat z → magnitude z < 256 ^ 8
magnitude_fits (pos n) h = omega arith
magnitude_fits (negsuc n) h = absurd h
