-- ===== src/Message/Attachments.antt =====
-- message/message.go: `StoreAttachments`.
use end_to_end_chat.Base.{Bytes, List, [], ◌∷◌, if◌then◌else◌, length, bytes_eq, pos}
use end_to_end_chat.Base.Op.{Op, ◌>>=◌, ◌>>◌, return}
use end_to_end_chat.Signal.Defs.{nil_uuid}
use end_to_end_chat.Store.Defs.{Env, Store, StoreError, Draws}
use end_to_end_chat.Store.Files.{put_file}
use end_to_end_chat.Message.Defs.{Attachment}

-- An attachment whose contents have been stored.
abbrev pub emptied : Bytes → Attachment → Attachment
emptied id a = record a { id = id; size = pos (length a.contents); contents = [] }

-- The id under which an attachment is stored; `fresh` is what `uuid.New` draws.
abbrev pub file_id : Bytes → Attachment → Bytes
file_id fresh a = if bytes_eq a.id nil_uuid then fresh else a.id

module _ (e : Env) where
  -- One turn of the loop, by the length of the contents.
  unfoldable pub store_contents :
      Draws → Bytes → Bytes → Attachment → Bytes → Op (Store e) StoreError Attachment
  store_contents d secret msg_id a [] = return a
  store_contents d secret msg_id a (x ∷ contents) = do
    put_file e d.nonce d.now secret (file_id d.fresh a) msg_id (x ∷ contents)
    return (emptied (file_id d.fresh a) a)

  -- `StoreAttachments`, which draws anew for each attachment. The first error ends the loop.
  unfoldable pub store_attachments :
      Bytes → Bytes → List (Draws × Attachment) → Op (Store e) StoreError (List Attachment)
  unfolding store_contents
  store_attachments secret msg_id [] = return []
  store_attachments secret msg_id ((d, a) ∷ rest) = do
    stored ← store_contents d secret msg_id a a.contents
    others ← store_attachments secret msg_id rest
    return (stored ∷ others)
