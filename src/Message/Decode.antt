-- ===== src/Message/Decode.antt =====
-- message/message.go: `ToMessage` and `decodeAttachment`.
use end_to_end_chat.Base.{ℕ, zero, suc, ◌+◌, ◌*◌, List, [], ◌∷◌, Bytes}
use end_to_end_chat.Base.Outcome.{Outcome}
use end_to_end_chat.Wire.Reader.{
  Reader, ◌>>=◌, ◌>>◌, need, take_bytes, take_uint, lift, return, read_all,
}
use end_to_end_chat.Config.{aes_key_size}
use end_to_end_chat.Message.Defs.{
  Attachment, Message, DecodeError, id_size, u16_size, u32_size, u64_size, time_field_size,
  to_int64, truncated_at_attachment_id, truncated_at_attachment_name, truncated_at_attachment_mime,
  truncated_at_attachment_data, too_short_for_header, truncated_at_to, truncated_at_content,
}

unfoldable pub decode_attachment : Reader DecodeError Attachment
decode_attachment = do
  need (id_size + u16_size) truncated_at_attachment_id
  id ← take_bytes id_size
  name_len ← take_uint u16_size
  need (name_len + u16_size) truncated_at_attachment_name
  name ← take_bytes name_len
  mime_len ← take_uint u16_size
  need (mime_len + u64_size + u32_size) truncated_at_attachment_mime
  mime_type ← take_bytes mime_len
  raw_size ← take_uint u64_size
  size ← lift (to_int64 raw_size)
  data_len ← take_uint u32_size
  need data_len truncated_at_attachment_data
  contents ← take_bytes data_len
  return (record { id = id; name = name; mime_type = mime_type; size = size; contents = contents })

-- `for range attCount`
unfoldable pub decode_attachments : ℕ → Reader DecodeError (List Attachment)
decode_attachments zero = return []
decode_attachments (suc n) = do
  a ← decode_attachment
  rest ← decode_attachments n
  return (a ∷ rest)

unfoldable pub read_message : Reader DecodeError Message
read_message = do
  need (id_size + aes_key_size + u16_size) too_short_for_header
  id ← take_bytes id_size
  from_pub_key ← take_bytes aes_key_size
  to_len ← take_uint u16_size
  need (to_len + u32_size) truncated_at_to
  to ← take_bytes to_len
  content_len ← take_uint u32_size
  need (content_len + 3 * time_field_size + u16_size) truncated_at_content
  content ← take_bytes content_len
  nanos ← take_uint time_field_size
  time ← lift (to_int64 nanos)
  created_nanos ← take_uint time_field_size
  created_at ← lift (to_int64 created_nanos)
  updated_nanos ← take_uint time_field_size
  updated_at ← lift (to_int64 updated_nanos)
  att_count ← take_uint u16_size
  attachments ← decode_attachments att_count
  return (record {
    id = id;
    from_pub_key = from_pub_key;
    to = to;
    content = content;
    time = time;
    created_at = created_at;
    updated_at = updated_at;
    attachments = attachments;
  })

unfoldable pub to_message : Bytes → Outcome DecodeError Message
unfolding read_message
to_message input = read_all read_message input
