-- ===== src/Client/Codec/FileMeta.antt =====
-- client/client.go: `fileMeta`, `encodeFileMeta` and `decodeFileMeta`, which announce a file.
use native.Mathlib.Nat.{le_refl}
use end_to_end_chat.Base.{
  ℕ, ◌+◌, ◌^◌, ◌≤◌, ◌<◌, ◌≡◌, ◌≢◌, refl, subst, append-nil, [], ◌++◌, Bytes, arith, length, ℤ,
  IsInt64Nat,
}
use end_to_end_chat.Base.Outcome.{Outcome, ok, panic, overflow, out_of_range}
use end_to_end_chat.Wire.BigEndian.{put_be}
use end_to_end_chat.Wire.Writer
use end_to_end_chat.Wire.Writer.{
  Writer, put_checked, copy_bytes, write_all, Emits, emit_rules, layout_size, write_all-Emits,
}
use end_to_end_chat.Wire.Reader.{
  Reader, ◌>>=◌, ◌>>◌, need, take_bytes, take_uint, lift, return, read_all,
}
use end_to_end_chat.Wire.Reader.Crashes.{Crashes-then, Crashes-need, Crashes-lift, read_all-Crashes}
use end_to_end_chat.Wire.Reader.Decodes.{
  Decodes, Decodes-need, Decodes-then, Decodes-then_lift, Decodes-take_uint, Decodes-take_bytes,
  Decodes-then_return, read_all-Decodes,
}
use end_to_end_chat.Wire.Reader.Safe.{
  Safe, Safe-need, Safe-take_bytes, Safe-take_uint, Safe-lift, Safe-return, read_all-Safe,
}
use end_to_end_chat.Client.Codec.Lengths.{
  len_prefix_size, u16_len, u64_from_int64, int64_from_u64, magnitude, u16_len-ok,
  u64_from_int64-ok, int64_from_u64-ok, int64_from_u64-overflow, int64_from_u64-ne-out_of_range,
  magnitude_fits,
}

pub record FileMeta : Type 0 where
  pub name : Bytes
  pub size : ℤ
  pub mime : Bytes

pub data FileMetaError : Type 0 where
  too_short truncated_at_name truncated_at_mime : FileMetaError

unfoldable pub encode_file_meta : {E : Type 0} → FileMeta → Outcome E Bytes
encode_file_meta m = write_all (2 + length m.name + 8 + 2 + length m.mime) (
    Writer.◌>>◌ (put_checked 2 (u16_len (length m.name))) (
      Writer.◌>>◌ (copy_bytes (length m.name) m.name) (
        Writer.◌>>◌ (put_checked 8 (u64_from_int64 m.size)) (
          Writer.◌>>◌ (put_checked 2 (u16_len (length m.mime)))
            (copy_bytes (length m.mime) m.mime)))))

unfoldable pub read_file_meta : Reader FileMetaError FileMeta
read_file_meta = do
  need len_prefix_size too_short
  name_len ← take_uint 2
  need (name_len + 8 + 2) truncated_at_name
  name ← take_bytes name_len
  raw_size ← take_uint 8
  size ← lift (int64_from_u64 raw_size)
  mime_len ← take_uint 2
  need mime_len truncated_at_mime
  mime ← take_bytes mime_len
  return (record { name = name; size = size; mime = mime })

unfoldable pub decode_file_meta : Bytes → Outcome FileMetaError FileMeta
unfolding read_file_meta
decode_file_meta input = read_all read_file_meta input

pub record IsEncodable (m : FileMeta) : Type 0 where
  pub name_fits : length m.name < 2 ^ 16
  pub size_fits : IsInt64Nat m.size
  pub mime_fits : length m.mime < 2 ^ 16

abbrev tail_layout : ℕ → Bytes → Bytes
tail_layout size mime = put_be 8 size ++ (put_be 2 (length mime) ++ mime)

abbrev layout : FileMeta → Bytes
layout m = put_be 2 (length m.name) ++ (m.name ++ tail_layout (magnitude m.size) m.mime)

module _ (m : FileMeta) (h : IsEncodable m) where
  encode_file_meta-layout : {E : Type 0} → encode_file_meta {E = E} m ≡ ok (layout m)
  unfolding encode_file_meta
  encode_file_meta-layout =
      write_all-Emits _ _ (layout m)
        (search (emit_rules, u16_len-ok, u64_from_int64-ok, h.name_fits, h.size_fits, h.mime_fits)
          depth 20)
        (simp layout_size (omega arith))

  prefix_room : len_prefix_size ≤ length (layout m)
  prefix_room = simp layout_size (omega arith)

  name_room : length m.name + 8 + 2 ≤ length (m.name ++ tail_layout (magnitude m.size) m.mime)
  name_room = simp layout_size (omega arith)

  read_file_meta-Decodes : Decodes read_file_meta (layout m) m
  unfolding read_file_meta
  read_file_meta-Decodes = Decodes-need _ _ _ _ _ prefix_room (
      Decodes-then _ _ _ _ _ _ (Decodes-take_uint 2 (length m.name) h.name_fits) (
        Decodes-need _ _ _ _ _ name_room (
          Decodes-then _ _ _ _ _ _ (Decodes-take_bytes (length m.name) m.name refl) (
            Decodes-then _ _ _ _ _ _
              (Decodes-take_uint 8 (magnitude m.size) (magnitude_fits m.size h.size_fits))
              (Decodes-then_lift _ _ _ m.size _ (int64_from_u64-ok m.size h.size_fits) (
                Decodes-then _ _ _ _ _ _ (Decodes-take_uint 2 (length m.mime) h.mime_fits) (
                  Decodes-need _ _ _ _ _ (le_refl (length m.mime)) (
                    Decodes-then_return _ _ _ _
                      (Decodes-take_bytes (length m.mime) m.mime refl)))))))))

  -- The announcement of a file whose fields fit is encoded without a panic, and decoding the
  -- bytes, whatever follows them, gives it back.
  pub decode-encode_file_meta :
      (rest : Bytes)
      → (wire : Bytes) × (encode_file_meta {E = FileMetaError} m ≡ ok wire)
        × (decode_file_meta (wire ++ rest) ≡ ok m)
  unfolding decode_file_meta
  decode-encode_file_meta rest =
      (layout m, encode_file_meta-layout, read_all-Decodes _ _ rest _ read_file_meta-Decodes)

  -- The same for the bytes on their own, which fit an envelope.
  pub file_meta_wire :
      {E : Type 0}
      → (wire : Bytes) × (encode_file_meta {E = E} m ≡ ok wire)
        × (length wire < 2 ^ 32)
        × (decode_file_meta wire ≡ ok m)
  unfolding decode_file_meta
  file_meta_wire = (
    layout m,
    encode_file_meta-layout,
    simp layout_size (omega (arith, h.name_fits, h.mime_fits)),
    subst (λ (w : Bytes). decode_file_meta w ≡ ok m) (append-nil (layout m))
        (read_all-Decodes _ _ [] _ read_file_meta-Decodes),
  )

read_file_meta-Safe : Safe out_of_range 0 read_file_meta
unfolding read_file_meta
read_file_meta-Safe = Safe-need _ _ _ _ (
    Safe-take_uint _ _ _ (omega arith) λ name_len. Safe-need _ _ _ _ (
      Safe-take_bytes _ _ _ (omega arith) λ name. Safe-take_uint _ _ _ (omega arith) λ raw_size.
        Safe-lift _ _ _ (int64_from_u64-ne-out_of_range raw_size) λ size.
          Safe-take_uint _ _ _ (omega arith) λ mime_len.
            Safe-need _ _ _ _ (Safe-take_bytes _ _ _ (omega arith) λ mime. Safe-return _ _)))

-- Whatever bytes arrive, `decodeFileMeta` never slices or reads past their end.
pub decode_file_meta-ne-out_of_range : (input : Bytes) → decode_file_meta input ≢ panic out_of_range
unfolding decode_file_meta
decode_file_meta-ne-out_of_range input = read_all-Safe read_file_meta input read_file_meta-Safe

-- An announced size above the int64 range makes `decodeFileMeta` panic.
pub decode_file_meta-bad_size :
    (name mime : Bytes) (size : ℕ)
    → length name < 2 ^ 16
    → 2 ^ 63 ≤ size
    → size < 2 ^ 64
    → decode_file_meta (put_be 2 (length name) ++ (name ++ tail_layout size mime)) ≡ panic overflow
unfolding decode_file_meta read_file_meta
decode_file_meta-bad_size name mime size hn lo hi = read_all-Crashes _ _ _ (
    Crashes-need _ _ _ _ _ (simp layout_size (omega arith)) (
      Crashes-then _ _ _ _ _ _ (Decodes-take_uint 2 (length name) hn) (
        Crashes-need _ _ _ _ _ (simp layout_size (omega arith)) (
          Crashes-then _ _ _ _ _ _ (Decodes-take_bytes (length name) name refl) (
            Crashes-then _ _ _ _ _ _ (Decodes-take_uint 8 size hi)
              (Crashes-lift _ _ _ _ (int64_from_u64-overflow size lo)))))))
