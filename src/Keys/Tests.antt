-- ===== src/Keys/Tests.antt =====
-- keys/generate.go with the toy texts.
use end_to_end_chat.Base.{◌≡◌, refl, Bytes, replicate}
use end_to_end_chat.Base.Outcome.{ok}
use end_to_end_chat.Keys.Defs.{unmarshal_json, marshal_json}
use end_to_end_chat.Keys.RoundTrip.{unmarshal_json-marshal_json}
use end_to_end_chat.Keys.Sample.{toy_hex}

abbrev key : Bytes
key = replicate 32 7

unmarshal_json-marshal_json_example : unmarshal_json toy_hex (marshal_json toy_hex key) ≡ ok key
unmarshal_json-marshal_json_example = unmarshal_json-marshal_json toy_hex key refl
