-- ===== src/Message/Safety.antt =====
-- message/message.go: `ToMessage` on arbitrary bytes never slices or reads out of range.
use end_to_end_chat.Base.{ℕ, zero, suc, ◌≢◌, Bytes, arith}
use end_to_end_chat.Base.Outcome.{panic, out_of_range}
use end_to_end_chat.Wire.Reader.Safe.{
  Safe, Safe-need, Safe-take_bytes, Safe-take_uint, Safe-lift, Safe-return, Safe-then, Safe-weaken,
  read_all-Safe,
}
use end_to_end_chat.Message.Defs.{to_int64}
use end_to_end_chat.Message.Decode.{decode_attachment, decode_attachments, read_message, to_message}

pub to_int64-ne-out_of_range : {E : Type 0} (n : ℕ) → to_int64 {E = E} n ≢ panic out_of_range
unfolding to_int64
to_int64-ne-out_of_range n e = ground arith

decode_attachment-Safe : Safe out_of_range 0 decode_attachment
unfolding decode_attachment
decode_attachment-Safe = Safe-need _ _ _ _ (
    Safe-take_bytes _ _ _ (omega arith) λ id. Safe-take_uint _ _ _ (omega arith) λ name_len.
      Safe-need _ _ _ _ (
        Safe-take_bytes _ _ _ (omega arith) λ name. Safe-take_uint _ _ _ (omega arith) λ mime_len.
          Safe-need _ _ _ _ (
            Safe-take_bytes _ _ _ (omega arith) λ mime_type.
              Safe-take_uint _ _ _ (omega arith) λ raw_size.
                Safe-lift _ _ _ (to_int64-ne-out_of_range raw_size) λ size.
                  Safe-take_uint _ _ _ (omega arith) λ data_len.
                    Safe-need _ _ _ _
                      (Safe-take_bytes _ _ _ (omega arith) λ contents. Safe-return _ _))))

decode_attachments-Safe : (n : ℕ) → Safe out_of_range 0 (decode_attachments n)
unfolding decode_attachments
decode_attachments-Safe zero = Safe-return 0 _
decode_attachments-Safe (suc n) =
    Safe-then 0 _ _ decode_attachment-Safe
      λ a. Safe-then 0 _ _ (decode_attachments-Safe n) λ rest. Safe-return 0 _

read_message-Safe : Safe out_of_range 0 read_message
unfolding read_message
read_message-Safe = Safe-need _ _ _ _ (
    Safe-take_bytes _ _ _ (omega arith) λ id. Safe-take_bytes _ _ _ (omega arith) λ from.
      Safe-take_uint _ _ _ (omega arith) λ to_len. Safe-need _ _ _ _ (
        Safe-take_bytes _ _ _ (omega arith) λ to. Safe-take_uint _ _ _ (omega arith) λ content_len.
          Safe-need _ _ _ _ (
            Safe-take_bytes _ _ _ (omega arith) λ content.
              Safe-take_uint _ _ _ (omega arith) λ nanos.
                Safe-lift _ _ _ (to_int64-ne-out_of_range nanos) λ time.
                  Safe-take_uint _ _ _ (omega arith) λ created.
                    Safe-lift _ _ _ (to_int64-ne-out_of_range created) λ created_at.
                      Safe-take_uint _ _ _ (omega arith) λ updated.
                        Safe-lift _ _ _ (to_int64-ne-out_of_range updated) λ updated_at.
                          Safe-take_uint _ _ _ (omega arith) λ count.
                            Safe-then _ _ _
                              (Safe-weaken 0 _ _ (omega arith) (decode_attachments-Safe count))
                              λ attachments. Safe-return _ _)))

-- Whatever bytes arrive, `ToMessage` never slices or reads past their end.
pub to_message-ne-out_of_range : (input : Bytes) → to_message input ≢ panic out_of_range
unfolding to_message
to_message-ne-out_of_range input = read_all-Safe read_message input read_message-Safe
