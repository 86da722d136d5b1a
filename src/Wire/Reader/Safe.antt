-- ===== src/Wire/Reader/Safe.antt =====
-- Decoders that do not end in a panic, whatever they read.

use end_to_end_chat.Base.{
  ℕ, ◌+◌, ◌-◌, ◌≤◌, ◌≢◌, ap, arith, length, take, drop, Bytes, leb, le→leb, leb→le, Bool-cases, inl,
  inr,
}
use end_to_end_chat.Base.Outcome.{Outcome, ok, err, panic, Panic, out_of_range}
use end_to_end_chat.Base.Outcome
use end_to_end_chat.Wire.BigEndian.{get_be}
use end_to_end_chat.Wire.Reader.{
  Reader, then_read, need, take_bytes, take_uint, return, lift, read_all,
}
use end_to_end_chat.Wire.Reader.Decodes.{}

-- The outcome of a decoder that does not end in the panic `p`, and that stays within the input.
abbrev pub Within : {E A : Type 0} → Panic → ℕ → Outcome E (A × ℕ) → Type 0
Within p size (ok (a, off)) = off ≤ size
Within p size (err e) = Unit
Within p size (panic q) = q ≢ p

-- Where `k` bytes are left, the decoder does not end in the panic `p`.
pub record Safe {E A : Type 0} (p : Panic) (k : ℕ) (m : Reader E A) : Type 0 where
  pub at :
      (input : Bytes) (off : ℕ) → off + k ≤ length input → Within p (length input) (m input off)

module _ {E : Type 0} {p : Panic} where
  pub Safe-take_bytes :
      {B : Type 0} (n k : ℕ) (f : Bytes → Reader E B)
      → n ≤ k
      → ((w : Bytes) → Safe p (k - n) (f w))
      → Safe p k (then_read (take_bytes n) f)
  unfolding then_read take_bytes
  Safe-take_bytes n k f le h = record {
    at = λ input off room.
        rw (le→leb (off + n) (length input) (omega arith))
          ((h (take n (drop off input))).at input (off + n) (omega arith));
  }

  pub Safe-take_uint :
      {B : Type 0} (w k : ℕ) (f : ℕ → Reader E B)
      → w ≤ k
      → ((n : ℕ) → Safe p (k - w) (f n))
      → Safe p k (then_read (take_uint w) f)
  unfolding then_read take_uint
  Safe-take_uint w k f le h = record {
    at = λ input off room.
        rw (le→leb (off + w) (length input) (omega arith))
          ((h (get_be (take w (drop off input)))).at input (off + w) (omega arith));
  }

  -- Behind a guard the bytes that it tests for are there.
  pub Safe-need :
      {B : Type 0} (n j : ℕ) (e : E) (k : Reader E B)
      → Safe p n k
      → Safe p j (then_read (need n e) λ _. k)
  unfolding then_read need
  Safe-need n j e k h = record {
    at = λ input off room. elim (Bool-cases (leb (off + n) (length input))) [
      | inl enough ↦ rw enough (h.at input off (leb→le _ _ enough))
      | inr short ↦ rw short tt
    ];
  }

  pub Safe-return : {A : Type 0} (k : ℕ) (a : A) → Safe {E = E} p k (return a)
  unfolding return
  Safe-return k a = record { at = λ input off room. omega arith }

  Within-then :
      {A B : Type 0} (f : A → Reader E B) (input : Bytes) (r : Outcome E (A × ℕ))
      → ((a : A) → Safe p 0 (f a))
      → Within p (length input) r
      → Within p (length input) (Outcome.◌>>=◌ r λ s. f s.0 input s.1)
  Within-then f input (ok (a, off)) h le = (h a).at input off (omega arith)
  Within-then f input (err e) h le = tt
  Within-then f input (panic q) h ne = ne

  pub Safe-then :
      {A B : Type 0} (k : ℕ) (m : Reader E A) (f : A → Reader E B)
      → Safe p k m
      → ((a : A) → Safe p 0 (f a))
      → Safe p k (then_read m f)
  unfolding then_read
  Safe-then k m f hm hf = record {
    at = λ input off room. Within-then f input (m input off) hf (hm.at input off room);
  }

  -- A computation that reads nothing leaves the bytes for what follows.
  pub Safe-lift :
      {A B : Type 0} (k : ℕ) (r : Outcome E A) (f : A → Reader E B)
      → r ≢ panic p
      → ((a : A) → Safe p k (f a))
      → Safe p k (then_read (lift r) f)
  unfolding then_read lift
  Safe-lift k (ok a) f h hf = record { at = (hf a).at }
  Safe-lift k (err e) f h hf = record { at = λ input off room. tt }
  Safe-lift k (panic q) f h hf = record { at = λ input off room e. h (ap panic e) }

  pub Safe-weaken : {A : Type 0} (k j : ℕ) (m : Reader E A) → k ≤ j → Safe p k m → Safe p j m
  Safe-weaken k j m le h = record { at = λ input off room. h.at input off (omega arith) }

  read_all-Within :
      {A : Type 0} (size : ℕ) (r : Outcome E (A × ℕ))
      → Within p size r
      → Outcome.◌>>=◌ r (λ s. ok s.0) ≢ panic p
  read_all-Within size (ok s) h = λ e. cc
  read_all-Within size (err x) h = λ e. cc
  read_all-Within size (panic q) h = λ e. h (ground arith)

  pub read_all-Safe :
      {A : Type 0} (m : Reader E A) (input : Bytes) → Safe p 0 m → read_all m input ≢ panic p
  unfolding read_all
  read_all-Safe m input h = read_all-Within (length input) (m input 0) (h.at input 0 (omega arith))
