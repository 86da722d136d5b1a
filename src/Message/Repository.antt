-- ===== src/Message/Repository.antt =====
-- message/message.go: `Put`, `Get`, `Update` and `Delete`, the messages in the store.
pub mod Coherent
pub mod Reads
pub mod Changes
pub mod Loads
pub mod Puts
pub mod Updates
pub mod Deletes
pub mod Invariant
pub mod Missing
pub mod Commands
pub mod Refinement
pub mod Sample
mod Tests
use end_to_end_chat.Base.{
  ℕ, Bytes, List, [], ◌∷◌, ◌++◌, Option, none, some, bytes_eq, length, ◌==◌, pos, if◌then◌else◌,
}
use end_to_end_chat.Base.Outcome.{Outcome, ok, err, map_err}
use end_to_end_chat.Base.Outcome
use end_to_end_chat.Base.Op.{Op, ◌>>=◌, ◌>>◌, return, lift, modify, attempt, wrap}
use end_to_end_chat.Signal.Defs.{ascii, nil_uuid}
use end_to_end_chat.Store.Defs.{Env, Store, StoreError}
use end_to_end_chat.Store.Chats
use end_to_end_chat.Store.Files.{delete_file}
use end_to_end_chat.Store.Chats.{cache_store, cache_load, index_search, put_with_id}
use end_to_end_chat.Message.Defs.{Attachment, Message, DecodeError}
use end_to_end_chat.Message.Encode.{encode}
use end_to_end_chat.Message.Decode.{to_message}

pub data RepositoryError : Type 0 where
  stored : StoreError → RepositoryError
  undecodable : DecodeError → RepositoryError

-- `for _, a := range msg.Attachments { ... }`
unfoldable pub attachment_names : List Attachment → Bytes
attachment_names [] = []
attachment_names (a ∷ rest) =
    let others = attachment_names rest in
    if length a.name == 0 then others else ascii " " ++ (a.name ++ others)

unfoldable pub search_text : Message → Bytes
unfolding attachment_names
search_text msg = msg.content ++ attachment_names msg.attachments

-- `if id == uuid.Nil { id = uuid.New() }`, where `fresh` is the id that `uuid.New` draws.
abbrev pub stored_id : Bytes → Message → Bytes
stored_id fresh msg = if bytes_eq msg.id nil_uuid then fresh else msg.id

module _ (e : Env) where
  unfoldable pub index_and_cache : ℕ → Bytes → Bytes → Message → Bytes → Store e → Store e
  unfolding index_search cache_store
  index_and_cache now id from_name msg plain s =
      cache_store e now id plain (index_search e id from_name msg.to (search_text msg) s)

  -- `loadPlain` behind the answer of the cache.
  unfoldable pub load_behind : ℕ → Bytes → Bytes → Option Bytes → Op (Store e) RepositoryError Bytes
  unfolding cache_store
  load_behind now secret id (some plain) = return plain
  load_behind now secret id none = do
    plain ← (λ s. (s, map_err stored (Chats.get e id secret s)))
    modify (cache_store e now id plain)
    return plain

  unfoldable pub load_plain : ℕ → Bytes → Bytes → Op (Store e) RepositoryError Bytes
  unfolding load_behind
  load_plain now secret id = λ s. load_behind now secret id (cache_load e now id s) s

  unfoldable pub put :
      Bytes → ℕ → Bytes → Bytes → Bytes → Message → Op (Store e) RepositoryError Bytes
  unfolding index_and_cache
  put nonce now fresh secret from_name msg = do
    plain ← lift (encode msg)
    let id = stored_id fresh msg
    wrap stored (put_with_id e nonce now id plain secret)
    modify (index_and_cache now id from_name (record msg { id = id }) plain)
    return id

  -- The message in the text that was loaded, under the id that was asked for.
  unfoldable pub decoded : Bytes → Bytes → Outcome RepositoryError Message
  decoded id plain =
      Outcome.◌>>=◌ (map_err undecodable (to_message plain)) λ msg. ok (record msg { id = id })

  unfoldable pub get : ℕ → Bytes → Bytes → Op (Store e) RepositoryError Message
  get now secret id = do plain ← load_plain now secret id; lift (decoded id plain)

  -- The creation time of the message that there is, if it can be read.
  abbrev pub keep_created : Message → Option Message → Message
  keep_created msg none = msg
  keep_created msg (some existing) = record msg { created_at = existing.created_at }

  unfoldable pub update :
      Bytes → ℕ → Bytes → Bytes → Bytes → Message → Op (Store e) RepositoryError (Unit {0})
  update nonce now secret id from_name msg = do
    existing ← attempt (get now secret id)
    let updated = record (keep_created msg existing) { updated_at = pos now }
    plain ← lift (encode updated)
    wrap stored (Chats.update e nonce now id plain secret)
    modify (index_and_cache now id from_name updated plain)

  -- `for _, a := range msg.Attachments { _ = s.Files.Delete(a.ID) }`
  unfoldable pub delete_files : List Attachment → Store e → Store e
  unfolding delete_file
  delete_files [] s = s
  delete_files (a ∷ rest) s = delete_files rest (delete_file e a.id s)

  abbrev pub delete_attachments : Option Message → Store e → Store e
  delete_attachments none s = s
  delete_attachments (some msg) s = delete_files msg.attachments s

  unfoldable pub delete : ℕ → Bytes → Bytes → Op (Store e) RepositoryError (Unit {0})
  delete now secret id = do
    existing ←
        attempt
          (load_plain now secret id >>= λ plain. lift (map_err undecodable (to_message plain)))
    modify (delete_attachments existing)
    wrap stored (Chats.delete e id)
