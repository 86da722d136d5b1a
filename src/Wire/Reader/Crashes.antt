-- ===== src/Wire/Reader/Crashes.antt =====
-- Decoders that end in a panic.
use mathlib.Core.List.{append_assoc, append-nil}
use end_to_end_chat.Base.{ℕ, ◌+◌, ◌≤◌, ◌≡◌, refl, [], ◌++◌, length, Bytes}
use end_to_end_chat.Base.Outcome.{Outcome, panic, Panic}
use end_to_end_chat.Wire.Reader.{Reader, then_read, need, lift, read_all}
use end_to_end_chat.Wire.Reader.Decodes.{Decodes, At, At-start, At-skip, At-room}

-- From an offset where `w` stands, the decoder ends in the panic.
pub record Crashes {E A : Type 0} (m : Reader E A) (w : Bytes) (p : Panic) : Type 0 where
  pub at :
      (input : Bytes) (off : ℕ) (rest : Bytes) → At input off (w ++ rest) → m input off ≡ panic p

module _ {E : Type 0} where
  pub Crashes-then :
      {A B : Type 0} (m : Reader E A) (f : A → Reader E B) (u w : Bytes) (a : A) (p : Panic)
      → Decodes m u a
      → Crashes (f a) w p
      → Crashes (then_read m f) (u ++ w) p
  unfolding then_read
  Crashes-then m f u w a p hm hf = record {
    at = λ input off rest h.
        let here : At input off (u ++ (w ++ rest)) = rw append_assoc at h in
        rw (hm.at input off (w ++ rest) here)
          (hf.at input (off + length u) rest (At-skip u (w ++ rest) here));
  }

  pub Crashes-need :
      {B : Type 0} (n : ℕ) (e : E) (k : Reader E B) (w : Bytes) (p : Panic)
      → n ≤ length w
      → Crashes k w p
      → Crashes (then_read (need n e) λ _. k) w p
  unfolding then_read need
  Crashes-need n e k w p le h = record {
    at = λ input off rest here. rw (At-room n w rest le here) (h.at input off rest here);
  }

  pub Crashes-lift :
      {A B : Type 0} (r : Outcome E A) (f : A → Reader E B) (w : Bytes) (p : Panic)
      → r ≡ panic p
      → Crashes (then_read (lift r) f) w p
  unfolding then_read lift
  Crashes-lift r f w p e = record { at = λ input off rest h. rw e }

  pub read_all-Crashes :
      {A : Type 0} (m : Reader E A) (w : Bytes) (p : Panic) → Crashes m w p → read_all m w ≡ panic p
  unfolding read_all
  read_all-Crashes m w p h = rw (h.at w 0 [] (rw append-nil (At-start w))) refl
