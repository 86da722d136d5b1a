-- ===== src/Wire/Writer.antt =====
-- The writers: `copy(buf[off:], src); off += n` and `PutUintN(buf[off:], n); off += N / 8` over a
-- buffer made with the size computed beforehand, and what a writer adds to the buffer.

use Prim.Native.Nat.add
use native.Mathlib.Nat.{add_assoc}
use end_to_end_chat.Base.{
  ℕ, zero, suc, ◌+◌, ◌≤◌, ◌≡◌, refl, ap, subst, ◌∙◌, List, [], ◌∷◌, ◌++◌, append_assoc, append-nil,
  arith, length, length-append, replicate, Bytes, leb, le→leb, if◌then◌else◌,
}
use end_to_end_chat.Base.Outcome.{Outcome, ok, err, panic, Panic, out_of_range, ◌>>=◌}
use end_to_end_chat.Wire.BigEndian.{put_be, length-put_be}

pub record Buffer : Type 0 where
  pub bytes : Bytes
  pub off : ℕ

abbrev pub Writer : Type 0 → Type 0
Writer E = Buffer → Outcome E Buffer

-- One write after the other.
pub then_write : {E : Type 0} → Writer E → Writer E → Writer E
then_write m k b = m b >>= k

infixl 5 ◌>>◌
abbrev pub ◌>>◌ : {E : Type 0} → Writer E → Writer E → Writer E
◌>>◌ = then_write

-- `copy(dst, src)` fills what room `dst` has.
overwrite : Bytes → Bytes → Bytes
overwrite [] src = []
overwrite (b ∷ bs) [] = b ∷ bs
overwrite (b ∷ bs) (x ∷ xs) = x ∷ overwrite bs xs

-- `copy(buf[off:], src)`
unfoldable pub copy_at : Bytes → ℕ → Bytes → Bytes
unfolding overwrite
copy_at buf zero src = overwrite buf src
copy_at [] (suc off) src = []
copy_at (b ∷ buf) (suc off) src = b ∷ copy_at buf off src

-- `copy(buf[off:], src); off += n`. The slice expression panics past the end.
unfoldable pub copy_bytes : {E : Type 0} → ℕ → Bytes → Writer E
unfolding copy_at
copy_bytes n src b =
    if leb b.off (length b.bytes)
    then ok (record { bytes = copy_at b.bytes b.off src; off = b.off + n })
    else panic out_of_range

-- `binary.BigEndian.PutUintN(buf[off:], n); off += w`, which wants `w` bytes of room.
unfoldable pub put_uint : {E : Type 0} → ℕ → ℕ → Writer E
unfolding copy_at put_be
put_uint w n b =
    if leb (b.off + w) (length b.bytes)
    then ok (record { bytes = copy_at b.bytes b.off (put_be w n); off = b.off + w })
    else panic out_of_range

-- Nothing more to write.
unfoldable pub done : {E : Type 0} → Writer E
done b = ok b

-- `buf := make([]byte, size)`, the writes, and `return buf`.
unfoldable pub write_all : {E : Type 0} → ℕ → Writer E → Outcome E Bytes
write_all size m = m (record { bytes = replicate size 0; off = 0 }) >>= λ b. ok b.bytes

-- A buffer that holds `front` and room for `k` more bytes.
abbrev pub filled : Bytes → ℕ → Buffer
filled front k = record { bytes = front ++ replicate k 0; off = length front }

-- The writer adds the bytes `w` at the offset, and moves the offset behind them.
pub record Emits {E : Type 0} (m : Writer E) (w : Bytes) : Type 0 where
  pub at : (front : Bytes) (k : ℕ) → m (filled front (length w + k)) ≡ ok (filled (front ++ w) k)

overwrite-room :
    (src : Bytes) (k : ℕ) → overwrite (replicate (length src + k) 0) src ≡ src ++ replicate k 0
unfolding overwrite
overwrite-room [] k = rw add.zero (fill k)
  where
    fill : (k : ℕ) → overwrite (replicate k 0) [] ≡ replicate k 0
    fill zero = refl
    fill (suc k) = refl
overwrite-room (x ∷ xs) k = rw add.suc (ap (◌∷◌ x) (overwrite-room xs k))

copy_at-room :
    (front src : Bytes) (k : ℕ)
    → copy_at (front ++ replicate (length src + k) 0) (length front) src
      ≡ (front ++ src) ++ replicate k 0
unfolding copy_at
copy_at-room [] src k = overwrite-room src k
copy_at-room (x ∷ front) src k = ap (◌∷◌ x) (copy_at-room front src k)

length-replicate : (n : ℕ) → length {A = ℕ} (replicate n 0) ≡ n
length-replicate zero = refl
length-replicate (suc n) = ap suc (length-replicate n)

length-filled : (front : Bytes) (k : ℕ) → length (front ++ replicate k 0) ≡ length front + k
length-filled front k =
    length-append front (replicate k 0) ∙ ap (◌+◌ (length front)) (length-replicate k)

module _ {E : Type 0} where
  pub Emits-copy_bytes :
      (n : ℕ) (src : Bytes) → length src ≡ n → Emits {E = E} (copy_bytes n src) src
  unfolding copy_bytes
  Emits-copy_bytes n src h = record {
    at = λ front k. ground (
      arith,
      length-filled front (length src + k),
      copy_at-room front src k,
      length-append front src,
    );
  }

  pub Emits-put_uint : (w n : ℕ) → Emits {E = E} (put_uint w n) (put_be w n)
  unfolding put_uint
  Emits-put_uint w n = record {
    at = λ front k. ground (
      arith,
      length-put_be w n,
      length-filled front (length (put_be w n) + k),
      copy_at-room front (put_be w n) k,
      length-append front (put_be w n),
    );
  }

  pub Emits-done : Emits {E = E} done []
  unfolding done
  Emits-done = record { at = λ front k. rw (add.zero, append-nil) refl }

  -- Writers in a row add their bytes in a row.
  pub Emits-then :
      (m n : Writer E) (u w : Bytes) → Emits m u → Emits n w → Emits (then_write m n) (u ++ w)
  unfolding then_write
  Emits-then m n u w hm hn = record {
    at = λ front k.
        rw (length-append u w, add_assoc (length u) (length w) k, hm.at front (length w + k))
          (hn.at (front ++ u) k ∙ ap (λ (b : Bytes). ok (filled b k)) (append_assoc front u w));
  }

  -- A buffer of exactly the size of what is written ends as just that.
  pub write_all-Emits :
      (size : ℕ) (m : Writer E) (w : Bytes) → Emits m w → length w ≡ size → write_all size m ≡ ok w
  unfolding write_all
  write_all-Emits size m w h e =
      ap (λ (r : Outcome E Buffer). r >>= λ b. ok b.bytes) (subst Fills size_eq (h.at [] 0))
      ∙ ap ok (append-nil w)
    where
      Fills : ℕ → Type 0
      Fills n = m (filled [] n) ≡ ok (filled w 0)

      size_eq : length w + 0 ≡ size
      size_eq = omega arith

-- `put_uint` of a length that is checked first: `n, err := check(len)`, `if err != nil`.
pub put_checked : {E : Type 0} → ℕ → Outcome E ℕ → Writer E
put_checked w r b = r >>= λ n. put_uint w n b

-- What ends a writer early.
pub data Failure (E : Type 0) : Type 0 where
  fails : E → Failure E
  panics : Panic → Failure E

abbrev pub failed : {E A : Type 0} → Failure E → Outcome E A
failed (fails e) = err e
failed (panics p) = panic p

-- With room for `k` bytes the writer ends in the failure.
pub record Stops {E : Type 0} (m : Writer E) (k : ℕ) (f : Failure E) : Type 0 where
  pub at : (front : Bytes) → m (filled front k) ≡ failed f

module _ {E : Type 0} where
  pub Emits-put_checked :
      (w n : ℕ) (r : Outcome E ℕ) → r ≡ ok n → Emits (put_checked w r) (put_be w n)
  unfolding put_checked
  Emits-put_checked w n r e = record { at = λ front k. rw e ((Emits-put_uint w n).at front k) }

  pub Stops-put_checked :
      (w k : ℕ) (r : Outcome E ℕ) (f : Failure E) → r ≡ failed f → Stops (put_checked w r) k f
  unfolding put_checked
  Stops-put_checked w k r (fails e) h = record { at = λ front. rw h }
  Stops-put_checked w k r (panics p) h = record { at = λ front. rw h }

  -- A failure ends the writers in a row.
  pub Stops-first :
      (m n : Writer E) (k : ℕ) (f : Failure E) → Stops m k f → Stops (then_write m n) k f
  unfolding then_write
  Stops-first m n k (fails e) h = record { at = λ front. rw (h.at front) }
  Stops-first m n k (panics p) h = record { at = λ front. rw (h.at front) }

  pub Stops-then :
      (m n : Writer E) (u : Bytes) (k : ℕ) (f : Failure E)
      → Emits m u
      → Stops n k f
      → Stops (then_write m n) (length u + k) f
  unfolding then_write
  Stops-then m n u k f hm hn = record { at = λ front. rw (hm.at front k) (hn.at (front ++ u)) }

  pub write_all-Stops :
      (size k : ℕ) (m : Writer E) (f : Failure E)
      → Stops m k f
      → k ≡ size
      → write_all size m ≡ failed f
  unfolding write_all
  write_all-Stops size k m (fails e) h p =
      ap (λ (r : Outcome E Buffer). r >>= λ b. ok b.bytes)
        (subst (λ n. m (filled [] n) ≡ err e) p (h.at []))
  write_all-Stops size k m (panics q) h p =
      ap (λ (r : Outcome E Buffer). r >>= λ b. ok b.bytes)
        (subst (λ n. m (filled [] n) ≡ panic q) p (h.at []))

pub ruleset emit_rules =
    (Emits-then, Emits-copy_bytes, Emits-put_uint, Emits-put_checked, Emits-done)

-- The size of a layout, field by field.
pub ruleset layout_size = (length-append, length-put_be)
