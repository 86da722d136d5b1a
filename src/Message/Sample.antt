-- ===== src/Message/Sample.antt =====
-- A message with an attachment.
use end_to_end_chat.Base.{refl, ◌∷◌, [], Bytes, arith, replicate, pos}
use end_to_end_chat.Signal.Defs.{ascii}
use end_to_end_chat.Message.Defs.{Attachment, Message, IsEncodable}

abbrev pub id : Bytes
id = replicate 16 3

abbrev pub key : Bytes
key = replicate 32 7

abbrev pub photo : Attachment
photo = record {
  id = id;
  name = ascii "photo.png";
  mime_type = ascii "image/png";
  size = pos 4;
  contents = 1 ∷ 2 ∷ 3 ∷ 4 ∷ [];
}

abbrev pub greeting : Message
greeting = record {
  id = id;
  from_pub_key = key;
  to = ascii "alice";
  content = ascii "hello";
  time = pos 1700000000000000000;
  created_at = pos 1700000000000000000;
  updated_at = pos 1700000000000000001;
  attachments = photo ∷ [];
}

pub greeting-IsEncodable : IsEncodable greeting
greeting-IsEncodable = record {
  id_fits = refl;
  from_fits = refl;
  to_fits = omega arith;
  content_fits = omega arith;
  time_fits = omega arith;
  created_fits = omega arith;
  updated_fits = omega arith;
  count_fits = omega arith;
  attachments_fit = (
    record {
      id_fits = refl;
      name_fits = omega arith;
      mime_fits = omega arith;
      size_fits = omega arith;
      contents_fit = omega arith;
    },
    tt,
  );
}
