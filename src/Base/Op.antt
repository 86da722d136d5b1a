-- ===== src/Base/Op.antt =====
-- Operations that read and change a state: they return the new state beside their outcome, since
-- an operation can change the state before it fails.
use end_to_end_chat.Base.{◌≡◌, refl, Option, none, some}
use end_to_end_chat.Base.Outcome
use end_to_end_chat.Base.Outcome.{Outcome, ok, err, panic, map_err}

abbrev pub Op : Type 0 → Type 0 → Type 0 → Type 0
Op S E A = S → S × Outcome E A

abbrev pub after : {S E A B : Type 0} → S × Outcome E A → (A → Op S E B) → S × Outcome E B
after (s, ok a) f = f a s
after (s, err e) f = (s, err e)
after (s, panic p) f = (s, panic p)

infixl 5 ◌>>=◌ ◌>>◌
abbrev pub ◌>>=◌ : {S E A B : Type 0} → Op S E A → (A → Op S E B) → Op S E B
m >>= f = λ s. after (m s) f

abbrev pub ◌>>◌ : {S E B : Type 0} → Op S E (Unit {0}) → Op S E B → Op S E B
m >> m' = m >>= λ _. m'

abbrev pub return : {S E A : Type 0} → A → Op S E A
return a = λ s. (s, ok a)

-- The outcome of a computation that does not touch the state.
abbrev pub lift : {S E A : Type 0} → Outcome E A → Op S E A
lift r = λ s. (s, r)

abbrev pub modify : {S E : Type 0} → (S → S) → Op S E (Unit {0})
modify f = λ s. (f s, ok tt)

-- What is left of an outcome whose error is dropped. A panic is not caught.
abbrev pub forgive : {S E A : Type 0} → S × Outcome E A → S × Outcome E (Option A)
forgive (s, ok a) = (s, ok (some a))
forgive (s, err e) = (s, ok none)
forgive (s, panic p) = (s, panic p)

abbrev pub attempt : {S E A : Type 0} → Op S E A → Op S E (Option A)
attempt m = λ s. forgive (m s)

abbrev pub wrap : {S E E' A : Type 0} → (E → E') → Op S E A → Op S E' A
wrap f m = λ s. let (s', r) = m s in (s', map_err f r)

module _ {S E A B : Type 0} where
  -- A computation at the end does not change the state, and acts on the outcome alone.
  pub after-lift :
      (p : S × Outcome E A) (f : A → Outcome E B)
      → after p (λ a. lift (f a)) ≡ (p.0, Outcome.◌>>=◌ p.1 f)
  after-lift (s, ok a) f = refl
  after-lift (s, err e) f = refl
  after-lift (s, panic p) f = refl
