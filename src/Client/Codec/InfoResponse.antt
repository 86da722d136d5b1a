-- ===== src/Client/Codec/InfoResponse.antt =====
-- client/client.go: `infoResponseData`, `encodeInfoResponse` and `decodeInfoResponse`, a peer's
-- name and profile picture.
use native.Mathlib.Nat.{le_refl}
use end_to_end_chat.Base.{◌+◌, ◌^◌, ◌≤◌, ◌<◌, ◌≡◌, ◌≢◌, refl, ◌++◌, Bytes, arith, length}
use end_to_end_chat.Base.Outcome.{Outcome, ok, panic, Panic}
use end_to_end_chat.Wire.BigEndian.{put_be}
use end_to_end_chat.Wire.Writer
use end_to_end_chat.Wire.Writer.{
  Writer, put_checked, copy_bytes, write_all, Emits, emit_rules, layout_size, write_all-Emits,
}
use end_to_end_chat.Wire.Reader.{Reader, ◌>>=◌, ◌>>◌, need, take_bytes, take_uint, return, read_all}
use end_to_end_chat.Wire.Reader.Decodes.{
  Decodes, Decodes-need, Decodes-then, Decodes-take_uint, Decodes-take_bytes, Decodes-then_return,
  read_all-Decodes,
}
use end_to_end_chat.Wire.Reader.Safe.{
  Safe, Safe-need, Safe-take_bytes, Safe-take_uint, Safe-return, read_all-Safe,
}
use end_to_end_chat.Client.Codec.Lengths.{len_prefix_size, u16_len, u32_len, u16_len-ok, u32_len-ok}

pub record InfoResponse : Type 0 where
  pub name : Bytes
  pub profile_pic : Bytes

pub data InfoResponseError : Type 0 where
  too_short truncated_at_name truncated_at_pic : InfoResponseError

unfoldable pub encode_info_response : {E : Type 0} → InfoResponse → Outcome E Bytes
encode_info_response r = write_all (2 + length r.name + 4 + length r.profile_pic) (
    Writer.◌>>◌ (put_checked 2 (u16_len (length r.name))) (
      Writer.◌>>◌ (copy_bytes (length r.name) r.name) (
        Writer.◌>>◌ (put_checked 4 (u32_len (length r.profile_pic)))
          (copy_bytes (length r.profile_pic) r.profile_pic))))

unfoldable pub read_info_response : Reader InfoResponseError InfoResponse
read_info_response = do
  need len_prefix_size too_short
  name_len ← take_uint 2
  need (name_len + 4) truncated_at_name
  name ← take_bytes name_len
  pic_len ← take_uint 4
  need pic_len truncated_at_pic
  profile_pic ← take_bytes pic_len
  return (record { name = name; profile_pic = profile_pic })

unfoldable pub decode_info_response : Bytes → Outcome InfoResponseError InfoResponse
unfolding read_info_response
decode_info_response input = read_all read_info_response input

abbrev layout : InfoResponse → Bytes
layout r =
    put_be 2 (length r.name) ++ (r.name ++ (put_be 4 (length r.profile_pic) ++ r.profile_pic))

module _ (r : InfoResponse) (hn : length r.name < 2 ^ 16) (hp : length r.profile_pic < 2 ^ 32) where
  encode_info_response-layout : {E : Type 0} → encode_info_response {E = E} r ≡ ok (layout r)
  unfolding encode_info_response
  encode_info_response-layout =
      write_all-Emits _ _ (layout r) (search (emit_rules, u16_len-ok, u32_len-ok, hn, hp) depth 20)
        (simp layout_size (omega arith))

  prefix_room : len_prefix_size ≤ length (layout r)
  prefix_room = simp layout_size (omega arith)

  name_room :
      length r.name + 4 ≤ length (r.name ++ (put_be 4 (length r.profile_pic) ++ r.profile_pic))
  name_room = simp layout_size (omega arith)

  read_info_response-Decodes : Decodes read_info_response (layout r) r
  unfolding read_info_response
  read_info_response-Decodes = Decodes-need _ _ _ _ _ prefix_room (
      Decodes-then _ _ _ _ _ _ (Decodes-take_uint 2 (length r.name) hn) (
        Decodes-need _ _ _ _ _ name_room (
          Decodes-then _ _ _ _ _ _ (Decodes-take_bytes (length r.name) r.name refl) (
            Decodes-then _ _ _ _ _ _ (Decodes-take_uint 4 (length r.profile_pic) hp) (
              Decodes-need _ _ _ _ _ (le_refl (length r.profile_pic)) (
                Decodes-then_return _ _ _ _
                  (Decodes-take_bytes (length r.profile_pic) r.profile_pic refl)))))))

  -- A name below 65536 bytes and a picture below 4 GiB are encoded without a panic, and decoding
  -- the bytes, whatever follows them, gives them back.
  pub decode-encode_info_response :
      (rest : Bytes)
      → (wire : Bytes) × (encode_info_response {E = InfoResponseError} r ≡ ok wire)
        × (decode_info_response (wire ++ rest) ≡ ok r)
  unfolding decode_info_response
  decode-encode_info_response rest = (
    layout r,
    encode_info_response-layout,
    read_all-Decodes _ _ rest _ read_info_response-Decodes,
  )

read_info_response-Safe : (p : Panic) → Safe p 0 read_info_response
unfolding read_info_response
read_info_response-Safe p = Safe-need _ _ _ _ (
    Safe-take_uint _ _ _ (omega arith) λ name_len. Safe-need _ _ _ _ (
      Safe-take_bytes _ _ _ (omega arith) λ name.
        Safe-take_uint _ _ _ (omega arith) λ pic_len.
          Safe-need _ _ _ _ (Safe-take_bytes _ _ _ (omega arith) λ pic. Safe-return _ _)))

-- Whatever bytes arrive, `decodeInfoResponse` does not panic.
pub decode_info_response-ne-panic :
    (input : Bytes) (p : Panic) → decode_info_response input ≢ panic p
unfolding decode_info_response
decode_info_response-ne-panic input p =
    read_all-Safe read_info_response input (read_info_response-Safe p)
