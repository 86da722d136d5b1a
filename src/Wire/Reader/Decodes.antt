-- ===== src/Wire/Reader/Decodes.antt =====
-- Decoders that read a value from where its bytes stand.
use mathlib.Core.List.{append_assoc}
use native.Mathlib.Nat.{add_assoc}
use end_to_end_chat.Base.{
  ℕ, ◌+◌, ◌^◌, ◌≤◌, ◌<◌, ◌≡◌, refl, sym, ap, subst, ◌∙◌, true, [], ◌++◌, arith, length,
  length-append, take, drop, take-append, drop-append, drop-drop, Bytes, leb, le→leb,
}
use end_to_end_chat.Base.Outcome.{Outcome, ok}
use end_to_end_chat.Wire.BigEndian.{put_be, get_be, length-put_be, get_be-put_be}
use end_to_end_chat.Wire.Reader.{
  Reader, then_read, need, take_bytes, take_uint, return, lift, read_all,
}

-- What is left of `input` at the offset is `rest`.
pub record At (input : Bytes) (off : ℕ) (rest : Bytes) : Type 0 where
  pub left : drop off input ≡ rest
  pub size : off + length rest ≡ length input

pub At-start : (input : Bytes) → At input 0 input
At-start input = record { left = refl; size = omega arith }

pub At-skip :
    {input : Bytes} {off : ℕ} (w rest : Bytes)
    → At input off (w ++ rest)
    → At input (off + length w) rest
At-skip {input} {off} w rest h = record {
  left = sym (drop-drop off (length w) input) ∙ ap (drop (length w)) h.left ∙ drop-append w rest;
  size = omega (arith, h.size, length-append w rest);
}

-- From an offset where `w` stands, the decoder reads `a` and stops behind `w`.
pub record Decodes {E A : Type 0} (m : Reader E A) (w : Bytes) (a : A) : Type 0 where
  pub at :
      (input : Bytes) (off : ℕ) (rest : Bytes)
      → At input off (w ++ rest)
      → m input off ≡ ok (a, off + length w)

-- The room that `At` promises, as the test of the code.
pub At-room :
    {input : Bytes} {off : ℕ} (n : ℕ) (w rest : Bytes)
    → n ≤ length w
    → At input off (w ++ rest)
    → leb (off + n) (length input) ≡ true
At-room n w rest le h = le→leb _ _ (omega (arith, h.size, length-append w rest))

At-front :
    {input : Bytes} {off : ℕ} (w rest : Bytes)
    → At input off (w ++ rest)
    → take (length w) (drop off input) ≡ w
At-front w rest h = rw h.left (take-append w rest)

module _ {E : Type 0} where
  pub Decodes-take_bytes : (n : ℕ) (w : Bytes) → length w ≡ n → Decodes {E = E} (take_bytes n) w w
  unfolding take_bytes
  Decodes-take_bytes n w e = record {
    at = λ input off rest h.
        rw (← e, At-room (length w) w rest (omega arith) h, At-front w rest h) refl;
  }

  pub Decodes-take_uint : (w n : ℕ) → n < 256 ^ w → Decodes {E = E} (take_uint w) (put_be w n) n
  unfolding take_uint
  Decodes-take_uint w n fits = record {
    at = λ input off rest h. rw (At-room w (put_be w n) rest (omega (arith, length-put_be w n)) h) (
        ap (λ (u : Bytes). ok (get_be u, off + w)) (front input off rest h)
        ∙ ap (λ (m : ℕ). ok (m, off + w)) (get_be-put_be w n fits)
        ∙ ap (λ (k : ℕ). ok (n, off + k)) (sym (length-put_be w n)));
  }
    where
      front :
          (input : Bytes) (off : ℕ) (rest : Bytes)
          → At input off (put_be w n ++ rest)
          → take w (drop off input) ≡ put_be w n
      front input off rest h =
          subst (λ (k : ℕ). take k (drop off input) ≡ put_be w n) (length-put_be w n)
            (At-front (put_be w n) rest h)

  pub Decodes-return : {A : Type 0} (a : A) → Decodes {E = E} (return a) [] a
  unfolding return
  Decodes-return a = record { at = λ input off rest h. ap (λ (k : ℕ). ok (a, k)) (omega arith) }

  pub Decodes-lift :
      {A : Type 0} (r : Outcome E A) (a : A) → r ≡ ok a → Decodes {E = E} (lift r) [] a
  unfolding lift
  Decodes-lift r a e = record {
    at = λ input off rest h. rw e (ap (λ (k : ℕ). ok (a, k)) (omega arith));
  }

  -- Decoders in a row read fields in a row.
  pub Decodes-then :
      {A B : Type 0} (m : Reader E A) (f : A → Reader E B) (u w : Bytes) (a : A) (b : B)
      → Decodes m u a
      → Decodes (f a) w b
      → Decodes (then_read m f) (u ++ w) b
  unfolding then_read
  Decodes-then m f u w a b hm hf = record {
    at = λ input off rest h.
        let here : At input off (u ++ (w ++ rest)) = rw append_assoc at h in
        rw
          (
            hm.at input off (w ++ rest) here,
            hf.at input (off + length u) rest (At-skip u (w ++ rest) here),
          )
          (ap (λ (k : ℕ). ok (b, k))
            (rw (length-append u w) (add_assoc off (length u) (length w))));
  }

  -- The last field, and the value that is made of all.
  pub Decodes-then_return :
      {A B : Type 0} (m : Reader E A) (f : A → B) (u : Bytes) (a : A)
      → Decodes m u a
      → Decodes (then_read m λ x. return (f x)) u (f a)
  unfolding then_read return
  Decodes-then_return m f u a hm = record {
    at = λ input off rest h. rw (hm.at input off rest h) refl;
  }

  pub Decodes-then_lift :
      {A B : Type 0} (r : Outcome E A) (f : A → Reader E B) (w : Bytes) (a : A) (b : B)
      → r ≡ ok a
      → Decodes (f a) w b
      → Decodes (then_read (lift r) f) w b
  unfolding then_read lift
  Decodes-then_lift r f w a b e h = record {
    at = λ input off rest here. rw e (h.at input off rest here);
  }

  -- A guard passes where the fields that follow are there.
  pub Decodes-need :
      {B : Type 0} (n : ℕ) (e : E) (k : Reader E B) (w : Bytes) (b : B)
      → n ≤ length w
      → Decodes k w b
      → Decodes (then_read (need n e) λ _. k) w b
  unfolding then_read need
  Decodes-need n e k w b le h = record {
    at = λ input off rest here. rw (At-room n w rest le here) (h.at input off rest here);
  }

  pub read_all-Decodes :
      {A : Type 0} (m : Reader E A) (w rest : Bytes) (a : A)
      → Decodes m w a
      → read_all m (w ++ rest) ≡ ok a
  unfolding read_all
  read_all-Decodes m w rest a h = rw (h.at (w ++ rest) 0 rest (At-start (w ++ rest))) refl
