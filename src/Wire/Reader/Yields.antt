-- ===== src/Wire/Reader/Yields.antt =====
-- What holds of every value that a decoder returns, whatever it reads.
use end_to_end_chat.Base.{ℕ, ◌≡◌, refl, ap, subst, Bytes}
use end_to_end_chat.Base.Outcome.{Outcome, ok, err, panic, bind-eq-ok, ok-injective}
use end_to_end_chat.Wire.Reader.{Reader, then_read, lift, return, read_all}

pub record Yields {E A : Type 0} (P : A → Type 0) (m : Reader E A) : Type 0 where
  pub at : (input : Bytes) (off : ℕ) (r : A × ℕ) → m input off ≡ ok r → P r.0

module _ {E : Type 0} where
  pub Yields-then :
      {A B : Type 0} {P : B → Type 0} (m : Reader E A) {f : A → Reader E B}
      → ((a : A) → Yields P (f a))
      → Yields P (then_read m f)
  unfolding then_read
  Yields-then m {f} h = record {
    at = λ input off r q.
        let (first, _, tail) = bind-eq-ok (m input off) (λ p. f p.0 input p.1) q in
        (h first.0).at input first.1 r tail;
  }

  -- The value of a computation that reads nothing.
  pub Yields-lift :
      {A B : Type 0} {P : B → Type 0} (r : Outcome E A) {f : A → Reader E B}
      → ((a : A) → r ≡ ok a → Yields P (f a))
      → Yields P (then_read (lift r) f)
  unfolding then_read lift
  Yields-lift (ok a) h = record { at = λ input off s q. (h a refl).at input off s q }
  Yields-lift (err x) h = record { at = λ input off s q. cc }
  Yields-lift (panic p) h = record { at = λ input off s q. cc }

  pub Yields-return : {A : Type 0} {P : A → Type 0} (a : A) → P a → Yields {E = E} P (return a)
  unfolding return
  Yields-return {P = P} a h = record {
    at = λ input off r q. subst P (ap (λ s. s.0) (ok-injective q)) h;
  }

  pub read_all-Yields :
      {A : Type 0} {P : A → Type 0} (m : Reader E A) (input : Bytes) {a : A}
      → Yields P m
      → read_all m input ≡ ok a
      → P a
  unfolding read_all
  read_all-Yields {P = P} m input h q =
      let (r, first, last) = bind-eq-ok (m input 0) (λ p. ok p.0) q in
      subst P (ok-injective last) (h.at input 0 r first)
