-- ===== src/Signal/Defs.antt =====
-- signal/signal.go: the types and constants.
use Prim.Native.Char.{code}
use Prim.Native.String.{String}
use end_to_end_chat.Base.{ℕ, ◌≡◌, ◌∷◌, [], Bytes, length, replicate}
use end_to_end_chat.Config.{aes_key_size}

-- The bytes of an ASCII text.
abbrev pub ascii : String → Bytes
ascii String.[] = []
ascii (String.◌∷◌ c s) = code c ∷ ascii s

-- `type Type string`: any text can arrive.
abbrev pub SignalType : Type 0
SignalType = Bytes

abbrev pub message : SignalType
message = ascii "message"

abbrev pub delete : SignalType
delete = ascii "delete"

abbrev pub update : SignalType
update = ascii "update"

abbrev pub file_meta : SignalType
file_meta = ascii "file_meta"

abbrev pub key_exchange : SignalType
key_exchange = ascii "key_exchange"

abbrev pub info_request : SignalType
info_request = ascii "info_request"

abbrev pub info_response : SignalType
info_response = ascii "info_response"

abbrev pub info_changed : SignalType
info_changed = ascii "info_changed"

abbrev pub peer_accepted : SignalType
peer_accepted = ascii "peer_accepted"

pub record Signal : Type 0 where
  pub typ : SignalType
  pub from : Bytes
  pub id : Bytes
  pub content : Bytes

abbrev pub marker : ℕ
marker = 1

abbrev pub header_prefix_len : ℕ
header_prefix_len = 3

pub data Error : Type 0 where
  length_exceeds_uint16 length_exceeds_uint32 : Error
  too_short_for_header missing_marker content_length_mismatch : Error

-- The fixed arrays have their lengths: `keys.Key` is [32]byte and `uuid.UUID` is [16]byte.
abbrev pub IsKey : Bytes → Type 0
IsKey k = length k ≡ aes_key_size

abbrev pub IsUuid : Bytes → Type 0
IsUuid u = length u ≡ 16

-- `uuid.Nil`
abbrev pub nil_uuid : Bytes
nil_uuid = replicate 16 0
