-- ===== src/Client/FileSending/Tests.antt =====
-- client/client.go: a file of five bytes, sent on the toy client.
use end_to_end_chat.Base.{List, pos, replicate, refl}
use end_to_end_chat.Base.Outcome.{ok}
use end_to_end_chat.Config.{file_chunk_size}
use end_to_end_chat.Signal.Defs.{ascii, file_meta}
use end_to_end_chat.Signal.Parse.{parse}
use end_to_end_chat.Store.Sample.{toy_env, empty_store}
use end_to_end_chat.Message.Defs.{Attachment}
use end_to_end_chat.Client.Codec.FileMeta.{FileMeta, decode_file_meta}
use end_to_end_chat.Client.State.{Client}
use end_to_end_chat.Client.FileSending.Whole.{packets, send_attachment-whole}
use end_to_end_chat.Client.Api.Messages.{send_attachment}
use end_to_end_chat.Client.Sample.{open_net, draws, keyed_with}
use end_to_end_chat.Base.{◌≡◌, ◌<◌, ◌≤◌, Bytes, [], ◌∷◌, All, length, arith}
use end_to_end_chat.Client.FileSending.{concat}

abbrev file : Bytes
file = 1 ∷ 2 ∷ 3 ∷ 4 ∷ 5 ∷ []

abbrev photo : Attachment
photo = record {
  id = replicate 16 2;
  name = ascii "a";
  mime_type = ascii "b";
  size = pos 5;
  contents = file;
}

abbrev announced : FileMeta
announced = record { name = ascii "a"; size = pos 5; mime = ascii "b" }

send_attachment-whole_example :
    (c' : Client toy_env) × (sig wire : Bytes) × (chunks : List Bytes) × (send_attachment toy_env
        open_net 0
        (λ n. draws)
        (draws, photo)
        (keyed_with empty_store)
      ≡ (c', ok tt))
    × (c'.sent ≡ (0, sig) ∷ packets 0 photo.id chunks)
    × (c'.store ≡ empty_store)
    × (parse sig
        ≡ ok (record { typ = file_meta; from = replicate 32 9; id = photo.id; content = wire }))
    × (decode_file_meta wire ≡ ok announced)
    × (concat chunks ≡ file)
    × All (λ (chunk : Bytes). (0 < length chunk) × (length chunk ≤ file_chunk_size)) chunks
send_attachment-whole_example =
    send_attachment-whole toy_env open_net (λ h p. refl) 0 (λ n. draws) draws photo
      (keyed_with empty_store) (replicate 32 4, refl, refl) refl refl
      (record { name_fits = omega arith; size_fits = omega arith; mime_fits = omega arith })
