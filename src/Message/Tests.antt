-- ===== src/Message/Tests.antt =====
-- message/message.go on a concrete message.
use end_to_end_chat.Base.{
  ℕ, zero, suc, ◌≡◌, ◌≢◌, refl, ap, ◌∷◌, [], ◌++◌, ◌^◌, Bytes, arith, replicate, length,
}
use end_to_end_chat.Base.Outcome.{ok, panic, overflow, out_of_range}
use end_to_end_chat.Signal.Defs.{ascii}
use end_to_end_chat.Message.Defs.{Message, DecodeError}
use end_to_end_chat.Message.Sample.{id, key, greeting, greeting-IsEncodable}
use end_to_end_chat.Message.Encode.{encode}
use end_to_end_chat.Message.Decode.{to_message}
use end_to_end_chat.Message.RoundTrip.{to_message-encode}
use end_to_end_chat.Message.Safety.{to_message-ne-out_of_range}
use end_to_end_chat.Message.Panics.{to_message-bad_time, bad_wire}

to_message-encode_example :
    (wire : Bytes) × (encode {E = DecodeError} greeting ≡ ok wire)
    × (to_message (wire ++ (5 ∷ [])) ≡ ok greeting)
to_message-encode_example = to_message-encode greeting (5 ∷ []) greeting-IsEncodable

to_message-ne-out_of_range_example : to_message (replicate 70 255) ≢ panic out_of_range
to_message-ne-out_of_range_example = to_message-ne-out_of_range (replicate 70 255)

to_message-bad_time_example :
    to_message (bad_wire id key (ascii "bob") (ascii "x") (replicate 18 0) (2 ^ 63))
    ≡ panic overflow
to_message-bad_time_example =
    to_message-bad_time id key (ascii "bob") (ascii "x") (replicate 18 0) (2 ^ 63) refl refl
      (omega arith) (omega arith) (omega arith) (omega arith) (omega arith)

length-replicate : (n a : ℕ) → length (replicate n a) ≡ n
length-replicate zero a = refl
length-replicate (suc n) a = ap suc (length-replicate n a)

abbrev long_name : Message
long_name = record greeting { to = replicate 65536 97 }
