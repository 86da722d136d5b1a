-- ===== src/Message/Defs.antt =====
-- message/message.go: the types, the sizes of the fixed fields and the conversions of numbers.
use end_to_end_chat.Base.{
  ℕ, ◌-◌, ◌^◌, ◌<◌, List, Bytes, length, All, ℤ, pos, negsuc, IsInt64Nat, ltb, if◌then◌else◌,
}
use end_to_end_chat.Base.Outcome.{Outcome, ok, panic, negative, overflow}
use end_to_end_chat.Signal.Defs.{IsKey, IsUuid}

abbrev pub id_size : ℕ
id_size = 16

abbrev pub u16_size : ℕ
u16_size = 2

abbrev pub u32_size : ℕ
u32_size = 4

abbrev pub u64_size : ℕ
u64_size = 8

abbrev pub time_field_size : ℕ
time_field_size = 8

-- `Data` is `contents` here. A nil slice is the empty list.
pub record Attachment : Type 0 where
  pub id : Bytes
  pub name : Bytes
  pub mime_type : Bytes
  pub size : ℤ
  pub contents : Bytes

-- A time is its `UnixNano`.
pub record Message : Type 0 where
  pub id : Bytes
  pub from_pub_key : Bytes
  pub to : Bytes
  pub content : Bytes
  pub time : ℤ
  pub created_at : ℤ
  pub updated_at : ℤ
  pub attachments : List Attachment

pub data DecodeError : Type 0 where
  truncated_at_attachment_id truncated_at_attachment_name : DecodeError
  truncated_at_attachment_mime truncated_at_attachment_data : DecodeError
  too_short_for_header truncated_at_to truncated_at_content : DecodeError

-- `toWireUint` at the unsigned type of `w` bytes.
unfoldable pub to_wire_uint : {E : Type 0} → ℕ → ℤ → Outcome E ℕ
to_wire_uint w (negsuc n) = panic negative
to_wire_uint w (pos n) = if ltb (256 ^ w - 1) n then panic overflow else ok n

unfoldable pub to_int64 : {E : Type 0} → ℕ → Outcome E ℤ
to_int64 n = if ltb (2 ^ 63 - 1) n then panic overflow else ok (pos n)

-- What the fields of the wire format can hold.
pub record IsEncodableAttachment (a : Attachment) : Type 0 where
  pub id_fits : IsUuid a.id
  pub name_fits : length a.name < 2 ^ 16
  pub mime_fits : length a.mime_type < 2 ^ 16
  pub size_fits : IsInt64Nat a.size
  pub contents_fit : length a.contents < 2 ^ 32

pub record IsEncodable (m : Message) : Type 0 where
  pub id_fits : IsUuid m.id
  pub from_fits : IsKey m.from_pub_key
  pub to_fits : length m.to < 2 ^ 16
  pub content_fits : length m.content < 2 ^ 32
  pub time_fits : IsInt64Nat m.time
  pub created_fits : IsInt64Nat m.created_at
  pub updated_fits : IsInt64Nat m.updated_at
  pub count_fits : length m.attachments < 2 ^ 16
  pub attachments_fit : All IsEncodableAttachment m.attachments
