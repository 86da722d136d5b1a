-- ===== src/Signal/Parse.antt =====
-- signal/signal.go: `Parse`.
use end_to_end_chat.Base.{◌+◌, Bytes, ◌==◌}
use end_to_end_chat.Base.Outcome.{Outcome, guard}
use end_to_end_chat.Wire.Reader.{
  Reader, ◌>>=◌, ◌>>◌, need, take_bytes, take_uint, lift, return, read_all,
}
use end_to_end_chat.Config.{aes_key_size}
use end_to_end_chat.Signal.Defs.{
  Signal, marker, header_prefix_len, Error, too_short_for_header, missing_marker,
  content_length_mismatch,
}

-- The guards are those of the source; `len(data)-off < contentLen` is the last one.
unfoldable pub read_signal : Reader Error Signal
read_signal = do
  need header_prefix_len too_short_for_header
  first ← take_uint 1
  lift (guard (first == marker) missing_marker)
  type_len ← take_uint 2
  need (type_len + aes_key_size + 16 + 4) too_short_for_header
  typ ← take_bytes type_len
  from ← take_bytes aes_key_size
  id ← take_bytes 16
  content_len ← take_uint 4
  need content_len content_length_mismatch
  content ← take_bytes content_len
  return (record { typ = typ; from = from; id = id; content = content })

unfoldable pub parse : Bytes → Outcome Error Signal
unfolding read_signal
parse input = read_all read_signal input
