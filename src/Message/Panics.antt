-- ===== src/Message/Panics.antt =====
-- message/message.go: what panics. A time field above the int64 range panics in `ToMessage`; a
-- name that is too long or a time before 1970 panics in `Encode`.
use end_to_end_chat.Base.{
  ℕ, ◌+◌, ◌-◌, ◌*◌, ◌^◌, ◌≤◌, ◌<◌, ◌≡◌, refl, ◌∷◌, ◌++◌, Bytes, List, [], arith, length, pos,
}
use end_to_end_chat.Base.Outcome.{panic, overflow}
use end_to_end_chat.Wire.BigEndian.{put_be}
use end_to_end_chat.Wire.Writer.{
  layout_size, write_all-Stops, Stops-then, Stops-first, Stops-put_checked, Emits-copy_bytes,
  panics,
}
use end_to_end_chat.Wire.Reader.Crashes.{Crashes-then, Crashes-need, Crashes-lift, read_all-Crashes}
use end_to_end_chat.Wire.Reader.Decodes.{Decodes-take_uint, Decodes-take_bytes}
use end_to_end_chat.Config.{aes_key_size}
use end_to_end_chat.Signal.Defs.{IsKey, IsUuid}
use end_to_end_chat.Message.Defs.{
  id_size, u16_size, u32_size, time_field_size, to_int64, to_wire_uint, Message, Attachment,
}
use end_to_end_chat.Message.Encode.{
  encode, encoded_size, write_message, add_sizes, attachment_encoded_size,
}
use end_to_end_chat.Message.Decode.{read_message, to_message}
use end_to_end_chat.Message.Layout.{prefixed}

to_int64-overflow : {E : Type 0} (n : ℕ) → 2 ^ 63 ≤ n → to_int64 {E = E} n ≡ panic overflow
unfolding to_int64
to_int64-overflow n h = ground arith

module _ (id from to content tail : Bytes) (nanos : ℕ) where
  abbrev bad_time : Bytes
  bad_time = put_be 8 nanos ++ tail

  -- The bytes of a message with the time `nanos`, up to the time field and beyond.
  abbrev pub bad_wire : Bytes
  bad_wire = id ++ (from ++ prefixed 2 to (prefixed 4 content bad_time))

  header_room : IsUuid id → IsKey from → id_size + aes_key_size + u16_size ≤ length bad_wire
  header_room hi hf = simp layout_size (omega arith)

  to_room : length to + u32_size ≤ length (to ++ prefixed 4 content bad_time)
  to_room = simp layout_size (omega arith)

  content_room :
      18 ≤ length tail
      → length content + 3 * time_field_size + u16_size ≤ length (content ++ bad_time)
  content_room ht = simp layout_size (omega arith)

  -- Well-formed bytes whose time field exceeds the int64 range make `ToMessage` panic.
  pub to_message-bad_time :
      IsUuid id
      → IsKey from
      → length to < 2 ^ 16
      → length content < 2 ^ 32
      → 18 ≤ length tail
      → 2 ^ 63 ≤ nanos
      → nanos < 2 ^ 64
      → to_message bad_wire ≡ panic overflow
  unfolding to_message read_message
  to_message-bad_time hi hf ht hc tail_room lo hin = read_all-Crashes _ bad_wire _ (
      Crashes-need _ _ _ _ _ (header_room hi hf) (
        Crashes-then _ _ _ _ _ _ (Decodes-take_bytes id_size id hi) (
          Crashes-then _ _ _ _ _ _ (Decodes-take_bytes aes_key_size from hf) (
            Crashes-then _ _ _ _ _ _ (Decodes-take_uint 2 (length to) (omega arith)) (
              Crashes-need _ _ _ _ _ to_room (
                Crashes-then _ _ _ _ _ _ (Decodes-take_bytes (length to) to refl) (
                  Crashes-then _ _ _ _ _ _ (Decodes-take_uint 4 (length content) (omega arith)) (
                    Crashes-need _ _ _ _ _ (content_room tail_room) (
                      Crashes-then _ _ _ _ _ _ (Decodes-take_bytes (length content) content refl) (
                        Crashes-then _ _ _ _ _ _ (Decodes-take_uint 8 nanos (omega arith))
                          (Crashes-lift _ _ _ _ (to_int64-overflow nanos lo))))))))))))

to_wire_uint-long :
    {E : Type 0} (n : ℕ) → 2 ^ 16 ≤ n → to_wire_uint {E = E} u16_size (pos n) ≡ panic overflow
unfolding to_wire_uint
to_wire_uint-long n h = ground arith

add_sizes-le : (size : ℕ) (items : List Attachment) → size ≤ add_sizes size items
unfolding add_sizes
add_sizes-le size [] = omega arith
add_sizes-le size (a ∷ items) = omega (arith, add_sizes-le (size + attachment_encoded_size a) items)

-- A recipient's name of 65536 bytes or more makes `Encode` panic.
pub encode-long_to :
    {E : Type 0} (m : Message)
    → IsUuid m.id
    → IsKey m.from_pub_key
    → 2 ^ 16 ≤ length m.to
    → encode {E = E} m ≡ panic overflow
unfolding encode encoded_size write_message
encode-long_to m hi hf long =
    write_all-Stops _ _ _ (panics overflow)
      (Stops-then _ _ m.id _ _ (Emits-copy_bytes id_size m.id hi) (
        Stops-then _ _ m.from_pub_key (encoded_size m - 48) _
          (Emits-copy_bytes aes_key_size m.from_pub_key hf)
          (Stops-first _ _ _ _
            (Stops-put_checked _ _ _ (panics overflow) (to_wire_uint-long (length m.to) long)))))
      (omega (arith, hi, hf, add_sizes-le _ m.attachments))
