-- ===== src/Message/Layout.antt =====
-- message/message.go: the bytes that `Encode` writes, field by field.
use end_to_end_chat.Base.{
  ℕ, ◌+◌, ◌^◌, ◌<◌, ◌≡◌, ◌∙◌, List, [], ◌∷◌, ◌++◌, Bytes, arith, length, length-append, All, ℤ, pos,
  negsuc, IsInt64Nat,
}
use end_to_end_chat.Base.Outcome.{ok}
use end_to_end_chat.Wire.BigEndian.{put_be}
use end_to_end_chat.Wire.Writer.{
  Emits, Emits-then, Emits-done, emit_rules, layout_size, write_all-Emits,
}
use end_to_end_chat.Message.Defs.{
  Attachment, Message, IsEncodable, IsEncodableAttachment, to_wire_uint, u16_size, u32_size,
  u64_size,
}
use end_to_end_chat.Message.Encode.{
  attachment_encoded_size, encode_attachment, encode_attachments, add_sizes, encoded_size,
  write_message, encode,
}

abbrev pub magnitude : ℤ → ℕ
magnitude (pos n) = n
magnitude (negsuc n) = n

-- A length, and the text of that length.
abbrev pub prefixed : ℕ → Bytes → Bytes → Bytes
prefixed w text rest = put_be w (length text) ++ (text ++ rest)

abbrev pub attachment_layout : Attachment → Bytes
attachment_layout a =
    a.id
    ++ prefixed 2 a.name (
        prefixed 2 a.mime_type
          (put_be 8 (magnitude a.size) ++ (put_be 4 (length a.contents) ++ a.contents)))

unfoldable pub attachments_layout : List Attachment → Bytes
attachments_layout [] = []
attachments_layout (a ∷ rest) = attachment_layout a ++ attachments_layout rest

abbrev pub message_layout : Message → Bytes
message_layout m =
    m.id
    ++ (m.from_pub_key
        ++ prefixed 2 m.to (
            prefixed 4 m.content (
              put_be 8 (magnitude m.time)
              ++ (put_be 8 (magnitude m.created_at)
                  ++ (put_be 8 (magnitude m.updated_at)
                      ++ (put_be 2 (length m.attachments) ++ attachments_layout m.attachments))))))

module _ {E : Type 0} where
  wire_u16 : (n : ℕ) → n < 2 ^ 16 → to_wire_uint {E = E} u16_size (pos n) ≡ ok n
  unfolding to_wire_uint
  wire_u16 n h = ground arith

  wire_u32 : (n : ℕ) → n < 2 ^ 32 → to_wire_uint {E = E} u32_size (pos n) ≡ ok n
  unfolding to_wire_uint
  wire_u32 n h = ground arith

  wire_int64 : (z : ℤ) → IsInt64Nat z → to_wire_uint {E = E} u64_size z ≡ ok (magnitude z)
  unfolding to_wire_uint
  wire_int64 (pos n) h = ground arith
  wire_int64 (negsuc n) h = absurd h

  encode_attachment-Emits :
      (a : Attachment)
      → IsEncodableAttachment a
      → Emits {E = E} (encode_attachment a) (attachment_layout a)
  unfolding encode_attachment
  encode_attachment-Emits a h =
      search
        (
          emit_rules, h.id_fits, wire_u16, wire_u32, wire_int64, h.name_fits, h.mime_fits,
          h.size_fits, h.contents_fit,
        )
        depth 20

  encode_attachments-Emits :
      (items : List Attachment)
      → All IsEncodableAttachment items
      → Emits {E = E} (encode_attachments items) (attachments_layout items)
  unfolding encode_attachments attachments_layout
  encode_attachments-Emits [] h = Emits-done
  encode_attachments-Emits (a ∷ items) h =
      Emits-then _ _ _ _ (encode_attachment-Emits a h.0) (encode_attachments-Emits items h.1)

  write_message-Emits :
      (m : Message) → IsEncodable m → Emits {E = E} (write_message m) (message_layout m)
  unfolding write_message
  write_message-Emits m h =
      search
        (
          emit_rules, h.id_fits, h.from_fits, wire_u16, wire_u32, wire_int64, h.to_fits,
          h.content_fits, h.time_fits, h.created_fits, h.updated_fits, h.count_fits,
          encode_attachments-Emits, h.attachments_fit,
        )
        depth 24

length-attachment_layout :
    (a : Attachment)
    → IsEncodableAttachment a
    → length (attachment_layout a) ≡ attachment_encoded_size a
unfolding attachment_encoded_size
length-attachment_layout a h = simp layout_size (omega (arith, h.id_fits))

add_sizes-layout :
    (size : ℕ) (items : List Attachment)
    → All IsEncodableAttachment items
    → add_sizes size items ≡ size + length (attachments_layout items)
unfolding add_sizes attachments_layout
add_sizes-layout size [] h = omega arith
add_sizes-layout size (a ∷ items) h =
    add_sizes-layout (size + attachment_encoded_size a) items h.1
    ∙ rw (length-append (attachment_layout a) (attachments_layout items))
        (omega (arith, length-attachment_layout a h.0))

length-message_layout : (m : Message) → IsEncodable m → length (message_layout m) ≡ encoded_size m
unfolding encoded_size
length-message_layout m h =
    rw (add_sizes-layout _ m.attachments h.attachments_fit)
      (simp layout_size (omega (arith, h.id_fits, h.from_fits)))

-- For a message whose fields fit, the size computed beforehand is exact, no write leaves the
-- buffer, and the result is the layout.
pub encode-layout :
    {E : Type 0} (m : Message) → IsEncodable m → encode {E = E} m ≡ ok (message_layout m)
unfolding encode
encode-layout m h =
    write_all-Emits _ _ (message_layout m) (write_message-Emits m h) (length-message_layout m h)
