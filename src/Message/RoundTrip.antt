-- ===== src/Message/RoundTrip.antt =====
-- message/message.go: what `Encode` writes, `ToMessage` reads.
use native.Mathlib.Nat.{le_refl}
use end_to_end_chat.Base.{
  ◌+◌, ◌*◌, ◌^◌, ◌≤◌, ◌<◌, ◌≡◌, refl, ap, sym, ◌∙◌, append-nil, List, [], ◌∷◌, ◌++◌, Bytes, arith,
  length, All, ℤ, pos, negsuc, IsInt64Nat,
}
use end_to_end_chat.Base.Outcome.{ok}
use end_to_end_chat.Wire.BigEndian.{put_be}
use end_to_end_chat.Wire.Writer.{layout_size}
use end_to_end_chat.Wire.Reader.{read_all}
use end_to_end_chat.Wire.Reader.Decodes.{
  Decodes, Decodes-need, Decodes-then, Decodes-then_lift, Decodes-take_uint, Decodes-take_bytes,
  Decodes-then_return, Decodes-return, read_all-Decodes,
}
use end_to_end_chat.Config.{aes_key_size}
use end_to_end_chat.Message.Defs.{
  Attachment, Message, DecodeError, IsEncodable, IsEncodableAttachment, to_int64, u16_size,
  u32_size, u64_size, id_size, time_field_size,
}
use end_to_end_chat.Message.Encode.{encode}
use end_to_end_chat.Message.Decode.{decode_attachment, decode_attachments, read_message, to_message}
use end_to_end_chat.Message.Layout.{
  magnitude, prefixed, attachment_layout, attachments_layout, message_layout, encode-layout,
}

int64_back : {E : Type 0} (z : ℤ) → IsInt64Nat z → to_int64 {E = E} (magnitude z) ≡ ok z
unfolding to_int64
int64_back (pos n) h = ground arith
int64_back (negsuc n) h = absurd h

int64_fits : (z : ℤ) → IsInt64Nat z → magnitude z < 256 ^ 8
int64_fits (pos n) h = omega arith
int64_fits (negsuc n) h = absurd h

module _ (a : Attachment) (h : IsEncodableAttachment a) where
  name_room :
      length a.name + u16_size
      ≤ length (
          a.name
          ++ prefixed 2 a.mime_type
              (put_be 8 (magnitude a.size) ++ (put_be 4 (length a.contents) ++ a.contents)))
  name_room = simp layout_size (omega arith)

  mime_room :
      length a.mime_type + u64_size + u32_size
      ≤ length (
          a.mime_type
          ++ (put_be 8 (magnitude a.size) ++ (put_be 4 (length a.contents) ++ a.contents)))
  mime_room = simp layout_size (omega arith)

  id_room : id_size + u16_size ≤ length (attachment_layout a)
  id_room = simp layout_size (omega (arith, h.id_fits))

  decode_attachment-Decodes : Decodes decode_attachment (attachment_layout a) a
  unfolding decode_attachment
  decode_attachment-Decodes = Decodes-need _ _ _ _ _ id_room (
      Decodes-then _ _ _ _ _ _ (Decodes-take_bytes id_size a.id h.id_fits) (
        Decodes-then _ _ _ _ _ _ (Decodes-take_uint 2 (length a.name) h.name_fits) (
          Decodes-need _ _ _ _ _ name_room (
            Decodes-then _ _ _ _ _ _ (Decodes-take_bytes (length a.name) a.name refl) (
              Decodes-then _ _ _ _ _ _ (Decodes-take_uint 2 (length a.mime_type) h.mime_fits) (
                Decodes-need _ _ _ _ _ mime_room (
                  Decodes-then _ _ _ _ _ _
                    (Decodes-take_bytes (length a.mime_type) a.mime_type refl)
                    (Decodes-then _ _ _ _ _ _
                      (Decodes-take_uint 8 (magnitude a.size) (int64_fits a.size h.size_fits))
                      (Decodes-then_lift _ _ _ a.size _ (int64_back a.size h.size_fits) (
                        Decodes-then _ _ _ _ _ _
                          (Decodes-take_uint 4 (length a.contents) h.contents_fit)
                          (Decodes-need _ _ _ _ _ (le_refl (length a.contents)) (
                            Decodes-then_return _ _ _ _
                              (Decodes-take_bytes (length a.contents) a.contents refl)))))))))))))

decode_attachments-Decodes :
    (items : List Attachment)
    → All IsEncodableAttachment items
    → Decodes (decode_attachments (length items)) (attachments_layout items) items
unfolding decode_attachments attachments_layout
decode_attachments-Decodes [] h = Decodes-return []
decode_attachments-Decodes (a ∷ items) h =
    Decodes-then _ _ _ _ _ _ (decode_attachment-Decodes a h.0)
      (Decodes-then_return _ _ _ _ (decode_attachments-Decodes items h.1))

module _ (m : Message) (h : IsEncodable m) where
  header_room : id_size + aes_key_size + u16_size ≤ length (message_layout m)
  header_room = simp layout_size (omega (arith, h.id_fits, h.from_fits))

  abbrev times : Bytes
  times =
      put_be 8 (magnitude m.time)
      ++ (put_be 8 (magnitude m.created_at)
          ++ (put_be 8 (magnitude m.updated_at)
              ++ (put_be 2 (length m.attachments) ++ attachments_layout m.attachments)))

  to_room : length m.to + u32_size ≤ length (m.to ++ prefixed 4 m.content times)
  to_room = simp layout_size (omega arith)

  content_room : length m.content + 3 * time_field_size + u16_size ≤ length (m.content ++ times)
  content_room = simp layout_size (omega arith)

  read_message-Decodes : Decodes read_message (message_layout m) m
  unfolding read_message
  read_message-Decodes = Decodes-need _ _ _ _ _ header_room (
      Decodes-then _ _ _ _ _ _ (Decodes-take_bytes id_size m.id h.id_fits) (
        Decodes-then _ _ _ _ _ _ (Decodes-take_bytes aes_key_size m.from_pub_key h.from_fits) (
          Decodes-then _ _ _ _ _ _ (Decodes-take_uint 2 (length m.to) h.to_fits) (
            Decodes-need _ _ _ _ _ to_room (
              Decodes-then _ _ _ _ _ _ (Decodes-take_bytes (length m.to) m.to refl) (
                Decodes-then _ _ _ _ _ _ (Decodes-take_uint 4 (length m.content) h.content_fits) (
                  Decodes-need _ _ _ _ _ content_room (
                    Decodes-then _ _ _ _ _ _ (Decodes-take_bytes (length m.content) m.content refl)
                      (Decodes-then _ _ _ _ _ _
                        (Decodes-take_uint 8 (magnitude m.time) (int64_fits m.time h.time_fits))
                        (Decodes-then_lift _ _ _ m.time _ (int64_back m.time h.time_fits) (
                          Decodes-then _ _ _ _ _ _
                            (Decodes-take_uint 8 (magnitude m.created_at)
                              (int64_fits m.created_at h.created_fits))
                            (Decodes-then_lift _ _ _ m.created_at _
                              (int64_back m.created_at h.created_fits)
                              (Decodes-then _ _ _ _ _ _
                                (Decodes-take_uint 8 (magnitude m.updated_at)
                                  (int64_fits m.updated_at h.updated_fits))
                                (Decodes-then_lift _ _ _ m.updated_at _
                                  (int64_back m.updated_at h.updated_fits)
                                  (Decodes-then _ _ _ _ _ _
                                    (Decodes-take_uint 2 (length m.attachments) h.count_fits)
                                    (Decodes-then_return _ _ _ _ (
                                      decode_attachments-Decodes m.attachments
                                        h.attachments_fit)))))))))))))))))

pub to_message-layout : (m : Message) → IsEncodable m → to_message (message_layout m) ≡ ok m
unfolding to_message
to_message-layout m h =
    ap (read_all read_message) (sym (append-nil (message_layout m)))
    ∙ read_all-Decodes _ _ [] _ (read_message-Decodes m h)

-- A message whose fields fit is encoded without a panic, and decoding the bytes, whatever follows
-- them, gives the message back.
pub to_message-encode :
    (m : Message) (rest : Bytes)
    → IsEncodable m
    → (wire : Bytes) × (encode {E = DecodeError} m ≡ ok wire) × (to_message (wire ++ rest) ≡ ok m)
unfolding to_message
to_message-encode m rest h =
    (message_layout m, encode-layout m h, read_all-Decodes _ _ rest _ (read_message-Decodes m h))
