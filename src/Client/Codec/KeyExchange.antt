-- ===== src/Client/Codec/KeyExchange.antt =====
-- client/session.go: `keyExchangeData`, `encodeKeyExchange` and `decodeKeyExchange`, the content of
-- the handshake's two signals.
use native.Mathlib.Nat.{le_refl}
use end_to_end_chat.Base.{◌+◌, ◌*◌, ◌^◌, ◌≤◌, ◌<◌, ◌≡◌, ◌≢◌, refl, ◌++◌, Bytes, arith, length}
use end_to_end_chat.Base.Outcome.{Outcome, ok, panic, Panic}
use end_to_end_chat.Config.{aes_key_size}
use end_to_end_chat.Signal.Defs.{IsKey}
use end_to_end_chat.Wire.BigEndian.{put_be}
use end_to_end_chat.Wire.Writer
use end_to_end_chat.Wire.Writer.{
  Writer, put_checked, copy_bytes, write_all, Emits, emit_rules, layout_size, write_all-Emits,
}
use end_to_end_chat.Wire.Reader.{Reader, ◌>>=◌, ◌>>◌, need, take_bytes, take_uint, return, read_all}
use end_to_end_chat.Wire.Reader.Decodes.{
  Decodes, Decodes-need, Decodes-then, Decodes-take_uint, Decodes-take_bytes, Decodes-then_return,
  read_all-Decodes,
}
use end_to_end_chat.Wire.Reader.Safe.{
  Safe, Safe-need, Safe-take_bytes, Safe-take_uint, Safe-return, read_all-Safe,
}
use end_to_end_chat.Client.Codec.Lengths.{u16_len, u16_len-ok}

pub record KeyExchange : Type 0 where
  pub pub_key : Bytes
  pub static_pub_key : Bytes
  pub client_name : Bytes
  pub signature : Bytes

pub data KeyExchangeError : Type 0 where
  too_short truncated_at_name truncated_at_signature : KeyExchangeError

unfoldable pub encode_key_exchange : {E : Type 0} → KeyExchange → Outcome E Bytes
encode_key_exchange d =
    write_all (aes_key_size * 2 + 2 + length d.client_name + 2 + length d.signature) (
      Writer.◌>>◌ (copy_bytes aes_key_size d.pub_key) (
        Writer.◌>>◌ (copy_bytes aes_key_size d.static_pub_key) (
          Writer.◌>>◌ (put_checked 2 (u16_len (length d.client_name))) (
            Writer.◌>>◌ (copy_bytes (length d.client_name) d.client_name) (
              Writer.◌>>◌ (put_checked 2 (u16_len (length d.signature)))
                (copy_bytes (length d.signature) d.signature))))))

unfoldable pub read_key_exchange : Reader KeyExchangeError KeyExchange
read_key_exchange = do
  need (aes_key_size * 2 + 2) too_short
  pub_key ← take_bytes aes_key_size
  static_pub_key ← take_bytes aes_key_size
  name_len ← take_uint 2
  need (name_len + 2) truncated_at_name
  client_name ← take_bytes name_len
  sig_len ← take_uint 2
  need sig_len truncated_at_signature
  signature ← take_bytes sig_len
  return (record {
    pub_key = pub_key;
    static_pub_key = static_pub_key;
    client_name = client_name;
    signature = signature;
  })

unfoldable pub decode_key_exchange : Bytes → Outcome KeyExchangeError KeyExchange
unfolding read_key_exchange
decode_key_exchange input = read_all read_key_exchange input

pub record IsEncodable (d : KeyExchange) : Type 0 where
  pub pub_key_fits : IsKey d.pub_key
  pub static_fits : IsKey d.static_pub_key
  pub name_fits : length d.client_name < 2 ^ 16
  pub signature_fits : length d.signature < 2 ^ 16

abbrev pub layout : KeyExchange → Bytes
layout d =
    d.pub_key
    ++ (d.static_pub_key
        ++ (put_be 2 (length d.client_name)
            ++ (d.client_name ++ (put_be 2 (length d.signature) ++ d.signature))))

module _ (d : KeyExchange) (h : IsEncodable d) where
  pub encode_key_exchange-layout : {E : Type 0} → encode_key_exchange {E = E} d ≡ ok (layout d)
  unfolding encode_key_exchange
  encode_key_exchange-layout =
      write_all-Emits _ _ (layout d)
        (search
          (emit_rules, u16_len-ok, h.pub_key_fits, h.static_fits, h.name_fits, h.signature_fits)
          depth 20)
        (simp layout_size (omega (arith, h.pub_key_fits, h.static_fits)))

  keys_room : aes_key_size * 2 + 2 ≤ length (layout d)
  keys_room = simp layout_size (omega (arith, h.pub_key_fits, h.static_fits))

  name_room :
      length d.client_name + 2
      ≤ length (d.client_name ++ (put_be 2 (length d.signature) ++ d.signature))
  name_room = simp layout_size (omega arith)

  read_key_exchange-Decodes : Decodes read_key_exchange (layout d) d
  unfolding read_key_exchange
  read_key_exchange-Decodes = Decodes-need _ _ _ _ _ keys_room (
      Decodes-then _ _ _ _ _ _ (Decodes-take_bytes aes_key_size d.pub_key h.pub_key_fits) (
        Decodes-then _ _ _ _ _ _ (Decodes-take_bytes aes_key_size d.static_pub_key h.static_fits) (
          Decodes-then _ _ _ _ _ _ (Decodes-take_uint 2 (length d.client_name) h.name_fits) (
            Decodes-need _ _ _ _ _ name_room (
              Decodes-then _ _ _ _ _ _
                (Decodes-take_bytes (length d.client_name) d.client_name refl)
                (Decodes-then _ _ _ _ _ _
                  (Decodes-take_uint 2 (length d.signature) h.signature_fits)
                  (Decodes-need _ _ _ _ _ (le_refl (length d.signature)) (
                    Decodes-then_return _ _ _ _
                      (Decodes-take_bytes (length d.signature) d.signature refl)))))))))

  pub decode_layout : (rest : Bytes) → decode_key_exchange (layout d ++ rest) ≡ ok d
  unfolding decode_key_exchange
  decode_layout rest = read_all-Decodes _ _ rest _ read_key_exchange-Decodes

  -- A key exchange whose fields fit is encoded without a panic, and decoding the bytes, whatever
  -- follows them, gives it back.
  pub decode-encode_key_exchange :
      (rest : Bytes)
      → (wire : Bytes) × (encode_key_exchange {E = KeyExchangeError} d ≡ ok wire)
        × (decode_key_exchange (wire ++ rest) ≡ ok d)
  decode-encode_key_exchange rest = (layout d, encode_key_exchange-layout, decode_layout rest)

read_key_exchange-Safe : (p : Panic) → Safe p 0 read_key_exchange
unfolding read_key_exchange
read_key_exchange-Safe p = Safe-need _ _ _ _ (
    Safe-take_bytes _ _ _ (omega arith) λ pub_key.
      Safe-take_bytes _ _ _ (omega arith) λ static_pub_key.
        Safe-take_uint _ _ _ (omega arith) λ name_len. Safe-need _ _ _ _ (
          Safe-take_bytes _ _ _ (omega arith) λ client_name.
            Safe-take_uint _ _ _ (omega arith) λ sig_len.
              Safe-need _ _ _ _ (Safe-take_bytes _ _ _ (omega arith) λ signature. Safe-return _ _)))

-- Whatever bytes arrive, `decodeKeyExchange` does not panic.
pub decode_key_exchange-ne-panic : (input : Bytes) (p : Panic) → decode_key_exchange input ≢ panic p
unfolding decode_key_exchange
decode_key_exchange-ne-panic input p =
    read_all-Safe read_key_exchange input (read_key_exchange-Safe p)
