-- ===== src/Message/Encode.antt =====
-- message/message.go: `Encode`. It never returns an error value, so its errors are those of any
-- caller; it can panic.
use end_to_end_chat.Base.{ℕ, ◌+◌, List, [], ◌∷◌, Bytes, length, pos}
use end_to_end_chat.Base.Outcome.{Outcome}
use end_to_end_chat.Wire.Writer.{Writer, ◌>>◌, copy_bytes, put_checked, done, write_all}
use end_to_end_chat.Config.{aes_key_size}
use end_to_end_chat.Message.Defs.{
  Attachment, Message, id_size, u16_size, u32_size, u64_size, time_field_size, to_wire_uint,
}

unfoldable pub attachment_encoded_size : Attachment → ℕ
attachment_encoded_size a =
    id_size
    + u16_size
    + length a.name
    + u16_size
    + length a.mime_type
    + u64_size
    + u32_size
    + length a.contents

unfoldable pub encode_attachment : {E : Type 0} → Attachment → Writer E
encode_attachment a = do
  copy_bytes id_size a.id
  put_checked u16_size (to_wire_uint u16_size (pos (length a.name)))
  copy_bytes (length a.name) a.name
  put_checked u16_size (to_wire_uint u16_size (pos (length a.mime_type)))
  copy_bytes (length a.mime_type) a.mime_type
  put_checked u64_size (to_wire_uint u64_size a.size)
  put_checked u32_size (to_wire_uint u32_size (pos (length a.contents)))
  copy_bytes (length a.contents) a.contents

-- `for _, a := range m.Attachments { off = encodeAttachment(buf, off, a) }`
unfoldable pub encode_attachments : {E : Type 0} → List Attachment → Writer E
encode_attachments [] = done
encode_attachments (a ∷ rest) = do encode_attachment a; encode_attachments rest

-- `for _, a := range m.Attachments { size += attachmentEncodedSize(a) }`
unfoldable pub add_sizes : ℕ → List Attachment → ℕ
unfolding attachment_encoded_size
add_sizes size [] = size
add_sizes size (a ∷ rest) = add_sizes (size + attachment_encoded_size a) rest

unfoldable pub encoded_size : Message → ℕ
unfolding add_sizes
encoded_size m =
    add_sizes
      (id_size
        + aes_key_size
        + (u16_size + length m.to)
        + (u32_size + length m.content)
        + time_field_size
        + time_field_size
        + time_field_size
        + u16_size)
      m.attachments

unfoldable pub write_message : {E : Type 0} → Message → Writer E
write_message m = do
  copy_bytes id_size m.id
  copy_bytes aes_key_size m.from_pub_key
  put_checked u16_size (to_wire_uint u16_size (pos (length m.to)))
  copy_bytes (length m.to) m.to
  put_checked u32_size (to_wire_uint u32_size (pos (length m.content)))
  copy_bytes (length m.content) m.content
  put_checked time_field_size (to_wire_uint u64_size m.time)
  put_checked time_field_size (to_wire_uint u64_size m.created_at)
  put_checked time_field_size (to_wire_uint u64_size m.updated_at)
  put_checked u16_size (to_wire_uint u16_size (pos (length m.attachments)))
  encode_attachments m.attachments

unfoldable pub encode : {E : Type 0} → Message → Outcome E Bytes
unfolding encoded_size write_message
encode m = write_all (encoded_size m) (write_message m)
