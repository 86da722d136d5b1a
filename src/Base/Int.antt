-- ===== src/Base/Int.antt =====
-- Signed integers (Go's `int64`) over the native numbers. `negsuc n` is -(n + 1).
use Prim.Native.Nat.{ℕ, ◌<◌, ◌^◌}

pub data ℤ : Type 0 where
  pos : ℕ → ℤ
  negsuc : ℕ → ℤ

-- The integers that an `int64` holds and that are not negative.
abbrev pub IsInt64Nat : ℤ → Type 0
IsInt64Nat (pos n) = n < 2 ^ 63
IsInt64Nat (negsuc n) = ⊥
