-- ===== src/Base/Outcome.antt =====
-- What a Go call ends with: a value, an error value, or a panic.
use mathlib.Core.Path.{◌≡◌, refl}
use mathlib.Core.Bool.{Bool, true, false}
use mathlib.Core.Logic.{◌≢◌}
use native.Mathlib.Omega.{arith}

pub data Panic : Type 0 where
  out_of_range negative overflow zero_division : Panic

pub data Outcome {ℓ κ} (E : Type ℓ) (A : Type κ) : Type (ℓ ⊔ κ) where
  ok : A → Outcome E A
  err : E → Outcome E A
  panic : Panic → Outcome E A

infixl 5 ◌>>=◌ ◌>>◌
abbrev pub ◌>>=◌ {ℓ κ μ} :
    {E : Type ℓ} {A : Type κ} {B : Type μ} → Outcome E A → (A → Outcome E B) → Outcome E B
ok a >>= f = f a
err e >>= f = err e
panic p >>= f = panic p

abbrev pub ◌>>◌ {ℓ μ} : {E : Type ℓ} {B : Type μ} → Outcome E (Unit {0}) → Outcome E B → Outcome E B
m >> k = m >>= λ _. k

-- `if !b { return e }`
abbrev pub guard {ℓ} : {E : Type ℓ} → Bool → E → Outcome E (Unit {0})
guard true e = ok tt
guard false e = err e

-- `fmt.Errorf("...: %w", err)`: the error gets a new cover.
abbrev pub map_err {ℓ κ μ} :
    {E : Type ℓ} {F : Type μ} {A : Type κ} → (E → F) → Outcome E A → Outcome F A
map_err f (ok a) = ok a
map_err f (err e) = err (f e)
map_err f (panic p) = panic p

module _ {ℓ κ μ} {E : Type ℓ} {A : Type κ} {B : Type μ} where
  -- The inversion of a bind that succeeds.
  pub bind-eq-ok :
      (m : Outcome E A) (f : A → Outcome E B) {b : B}
      → (m >>= f) ≡ ok b
      → (a : A) × (m ≡ ok a) × (f a ≡ ok b)
  bind-eq-ok (ok a) f h = (a, refl, h)
  bind-eq-ok (err e) f h = cc
  bind-eq-ok (panic p) f h = cc

  -- A bind panics only if one of its parts does.
  pub bind-ne-panic :
      (p : Panic) (m : Outcome E A) (f : A → Outcome E B)
      → m ≢ panic p
      → ((a : A) → m ≡ ok a → f a ≢ panic p)
      → (m >>= f) ≢ panic p
  bind-ne-panic p (ok a) f h k = k a refl
  bind-ne-panic p (err e) f h k = λ q. cc
  bind-ne-panic p (panic p') f h k = λ q. h (ground arith)

pub ok-injective {ℓ κ} :
    {E : Type ℓ} {A : Type κ} {a b : A} → ◌≡◌ {A = Outcome E A} (ok a) (ok b) → a ≡ b
ok-injective h = ground arith

-- Two computations that begin alike and whose rests agree up to `k`.
pub bind-follows {ℓ κ μ ν} :
    {E : Type ℓ} {A : Type κ} {B : Type μ} {C : Type ν} (k : B → C) (m : Outcome E A)
    (f : A → Outcome E B) (g : A → Outcome E C)
    → ((a : A) (b : B) → f a ≡ ok b → g a ≡ ok (k b))
    → {b : B} → (m >>= f) ≡ ok b
    → (m >>= g) ≡ ok (k b)
bind-follows k (ok a) f g step {b} h = step a b h
bind-follows k (err e) f g step h = cc
bind-follows k (panic p) f g step h = cc
