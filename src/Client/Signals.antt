-- ===== src/Client/Signals.antt =====
-- client/client.go: `handleSignal`, the messages that arrive, and the deletions and updates that a
-- peer asks for.
use end_to_end_chat.Base.{ℕ, Bytes, not, ◌&&◌, if◌then◌else◌, bytes_eq}
use end_to_end_chat.Base.Outcome.{err, map_err, guard}
use end_to_end_chat.Base.Op.{return, lift, attempt}
use end_to_end_chat.Signal.Defs
use end_to_end_chat.Signal.Defs.{Signal}
use end_to_end_chat.Keys.Defs.{nil_key}
use end_to_end_chat.Store.Defs.{Draws, Env}
use end_to_end_chat.Message.Defs.{Message}
use end_to_end_chat.Message.Decode.{to_message}
use end_to_end_chat.Message.Repository
use end_to_end_chat.Client.State.{
  ◌>>=◌, ◌>>◌, Handler, Net, on_store, gets, key_mismatch, bad_message, repository_failed,
  not_author, unexpected_type,
}
use end_to_end_chat.Client.Peers.{
  display_name, get_name, handle_info_request, handle_info_response, handle_info_changed,
  handle_peer_accepted,
}
use end_to_end_chat.Client.Files.{handle_file_meta}

module _ (e : Env) where
  -- `verifyAuthor`
  unfoldable pub verify_author : ℕ → Bytes → Bytes → Handler e Message
  verify_author now id key = do
    msg ← on_store e repository_failed λ c. Repository.get e now c.private id
    lift (
        guard (not (bytes_eq msg.from_pub_key nil_key) && bytes_eq key msg.from_pub_key) not_author)
    return msg

  -- A message whose store fails is dropped with a log entry.
  unfoldable pub handle_message : Draws → Signal → Bytes → Handler e (Unit {0})
  handle_message d sig key = do
    lift (guard (bytes_eq sig.from key) key_mismatch)
    msg ← lift (map_err bad_message (to_message sig.content))
    from_name ← gets e (display_name e key)
    _ ← attempt (
        on_store e repository_failed λ c.
          Repository.put e d.nonce d.now d.fresh c.private from_name
            (record msg { from_pub_key = key }))
    return tt

  unfoldable pub verify_and_delete : Draws → Signal → Bytes → Handler e (Unit {0})
  verify_and_delete d sig key = do
    _ ← verify_author d.now sig.id key
    on_store e repository_failed λ c. Repository.delete e d.now c.private sig.id

  unfoldable pub verify_and_update : Draws → Signal → Bytes → Handler e (Unit {0})
  verify_and_update d sig key = do
    msg ← verify_author d.now sig.id key
    own_name ← gets e (get_name e)
    on_store e repository_failed λ c.
        Repository.update e d.nonce d.now c.private sig.id own_name
          (record msg { content = sig.content })

  unfoldable pub handle_delete : Draws → Signal → Bytes → Handler e (Unit {0})
  unfolding verify_and_delete
  handle_delete d sig key = do
    lift (guard (bytes_eq sig.from key) key_mismatch)
    verify_and_delete d sig key

  unfoldable pub handle_update : Draws → Signal → Bytes → Handler e (Unit {0})
  unfolding verify_and_update
  handle_update d sig key = do
    lift (guard (bytes_eq sig.from key) key_mismatch)
    verify_and_update d sig key

  -- The `switch` of `handleSignal` on the type, which has no default.
  unfoldable pub handle_type : Net → Draws → Signal → Bytes → Defs.SignalType → Handler e (Unit {0})
  handle_type net d sig key typ =
      if bytes_eq typ Defs.message
      then handle_message d sig key
      else if bytes_eq typ Defs.file_meta
      then handle_file_meta e sig key
      else if bytes_eq typ Defs.delete
      then handle_delete d sig key
      else if bytes_eq typ Defs.update
      then handle_update d sig key
      else if bytes_eq typ Defs.info_request
      then handle_info_request e net key
      else if bytes_eq typ Defs.info_response
      then handle_info_response e d key sig.content
      else if bytes_eq typ Defs.info_changed
      then handle_info_changed e net key
      else if bytes_eq typ Defs.peer_accepted
      then handle_peer_accepted e key
      else if bytes_eq typ Defs.key_exchange
      then lift (err unexpected_type)
      else return tt

  unfoldable pub handle_signal : Net → Draws → Signal → Bytes → Handler e (Unit {0})
  handle_signal net d sig key = handle_type net d sig key sig.typ
