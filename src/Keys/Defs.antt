-- ===== src/Keys/Defs.antt =====
-- keys/generate.go: `String`, `FromHex`, the JSON form and the form in the database. The key files
-- and the keys of `AutoLoad` are not modelled.
use end_to_end_chat.Base.{
  ℕ, ◌-◌, ◌*◌, ◌≡◌, Bytes, [], ◌∷◌, ◌++◌, Option, none, some, length, replicate, take, drop, ◌==◌,
  ltb, not,
}
use end_to_end_chat.Base.Outcome.{Outcome, ok, err, panic, out_of_range, ◌>>=◌, ◌>>◌, guard}
use end_to_end_chat.Config.{aes_key_size}

-- `encoding/hex`: EncodeToString and DecodeString.
pub record Hex : Type 0 where
  pub encode : Bytes → Bytes
  pub decode : Bytes → Option Bytes
  pub decode-encode : (b : Bytes) → decode (encode b) ≡ some b
  pub length-encode : (b : Bytes) → length (encode b) ≡ 2 * length b

-- `NilKey`
abbrev pub nil_key : Bytes
nil_key = replicate 32 0

pub data KeyError : Type 0 where
  empty_key bad_hex bad_length too_short not_quoted bad_type : KeyError

abbrev pub min_quoted_hex_len : ℕ
min_quoted_hex_len = 2

-- `data[0]` and `b[len(b)-1]`: the byte at an index.
abbrev pub byte_at : {E : Type 0} → ℕ → Bytes → Outcome E ℕ
byte_at i b = head_of (drop i b)
  where
    head_of : {E : Type 0} → Bytes → Outcome E ℕ
    head_of [] = panic out_of_range
    head_of (x ∷ _) = ok x

-- What `Scan` is given: `string`, `[]byte` or a value of another type.
pub data Source : Type 0 where
  text blob : Bytes → Source
  other : Source

module _ (h : Hex) where
  -- `(Key).String`
  unfoldable pub to_string : Bytes → Bytes
  to_string key = h.encode key

  decoded_hex : Option Bytes → Outcome KeyError Bytes
  decoded_hex none = err bad_hex
  decoded_hex (some b) = ok b

  unfoldable pub from_hex : Bytes → Outcome KeyError Bytes
  unfolding decoded_hex
  from_hex s = do
    guard (not (length s == 0)) empty_key
    b ← decoded_hex (h.decode s)
    guard (length b == aes_key_size) bad_length
    ok b

  unfoldable pub marshal_json : Bytes → Bytes
  unfolding to_string
  marshal_json key = b'"' ∷ (to_string key ++ b'"' ∷ [])

  unfoldable pub parse_hex_quoted : Bytes → Outcome KeyError Bytes
  parse_hex_quoted b = do
    guard (not (ltb (length b) min_quoted_hex_len)) too_short
    first ← byte_at 0 b
    last ← byte_at (length b - 1) b
    guard (first == b'"') not_quoted
    guard (last == b'"') not_quoted
    ok (take (length b - 2) (drop 1 b))

  -- The new value of the receiver.
  unfoldable pub unmarshal_json : Bytes → Outcome KeyError Bytes
  unfolding parse_hex_quoted from_hex
  unmarshal_json b = do s ← parse_hex_quoted b; from_hex s

  -- `(Key).Value`
  unfoldable pub value : Bytes → Source
  unfolding to_string
  value key = text (to_string key)

  unfoldable pub scan : Source → Outcome KeyError Bytes
  unfolding from_hex
  scan (text s) = from_hex s
  scan (blob s) = from_hex s
  scan other = err bad_type
