-- ===== src/Client/Codec/Tests.antt =====
-- client/client.go and client/session.go: the codecs on concrete values.
use end_to_end_chat.Base.{◌^◌, ◌≡◌, refl, [], ◌++◌, Bytes, arith, replicate, length}
use end_to_end_chat.Base.Outcome.{ok, panic, overflow}
use end_to_end_chat.Wire.BigEndian.{put_be}
use end_to_end_chat.Signal.Defs.{ascii}
use end_to_end_chat.Client.Codec.FileMeta.{decode_file_meta, decode_file_meta-bad_size}
use end_to_end_chat.Client.Codec.KeyExchange.{
  KeyExchange, KeyExchangeError, encode_key_exchange, decode_key_exchange,
  decode-encode_key_exchange,
}

decode_file_meta-bad_size_example :
    decode_file_meta (
      put_be 2 (length (ascii "a"))
      ++ (ascii "a" ++ (put_be 8 (2 ^ 63) ++ (put_be 2 (length (ascii "b")) ++ ascii "b"))))
    ≡ panic overflow
decode_file_meta-bad_size_example =
    decode_file_meta-bad_size (ascii "a") (ascii "b") (2 ^ 63) (omega arith) (omega arith)
      (omega arith)

abbrev hello : KeyExchange
hello = record {
  pub_key = replicate 32 1;
  static_pub_key = replicate 32 2;
  client_name = ascii "alice";
  signature = replicate 64 3;
}

decode-encode_key_exchange_example :
    (wire : Bytes) × (encode_key_exchange {E = KeyExchangeError} hello ≡ ok wire)
    × (decode_key_exchange (wire ++ []) ≡ ok hello)
decode-encode_key_exchange_example =
    decode-encode_key_exchange hello
      (record {
        pub_key_fits = refl;
        static_fits = refl;
        name_fits = omega arith;
        signature_fits = omega arith;
      })
      []
