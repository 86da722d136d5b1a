-- ===== src/Client/Sending.antt =====
-- client/client.go: `sendMessage`, and message/message.go: `NewMessage`.
use end_to_end_chat.Base.{ℕ, Bytes, List, pos}
use end_to_end_chat.Base.Outcome.{map_err}
use end_to_end_chat.Base.Op.{lift, attempt}
use end_to_end_chat.Signal.Defs
use end_to_end_chat.Signal.Defs.{nil_uuid}
use end_to_end_chat.Signal.New.{new}
use end_to_end_chat.Store.Defs.{Draws, Env}
use end_to_end_chat.Message.Defs.{Attachment, Message}
use end_to_end_chat.Message.Encode.{encode}
use end_to_end_chat.Message.Repository
use end_to_end_chat.Message.Repository.{stored_id}
use end_to_end_chat.Keys.Defs.{nil_key}
use end_to_end_chat.Client.State.{
  ◌>>=◌, Handler, Net, on_store, gets, send_to, repository_failed, bad_signal,
}
use end_to_end_chat.Client.Peers.{get_name}

unfoldable pub new_message : Draws → Bytes → Bytes → List Attachment → Message
new_message d to content attachments = record {
  id = d.fresh;
  from_pub_key = nil_key;
  to = to;
  content = content;
  time = pos d.now;
  created_at = pos d.now;
  updated_at = pos d.now;
  attachments = attachments;
}

module _ (e : Env) where
  -- What `Put` leaves in the message that it was given: the id that it drew, where there was none.
  -- `Encode` returns no error, so that the id is always set before the store can fail.
  abbrev pub with_id : Bytes → Message → Message
  with_id fresh msg = record msg { id = stored_id fresh msg }

  unfoldable pub send_message : Net → ℕ → Draws → Message → Handler e (Unit {0})
  send_message net h d msg = do
    public ← gets e λ c. c.public
    own_name ← gets e (get_name e)
    _ ← attempt (
        on_store e repository_failed λ c.
          Repository.put e d.nonce d.now d.fresh c.private own_name
            (record msg { from_pub_key = public }))
    payload ← lift (encode (with_id d.fresh (record msg { from_pub_key = public })))
    sig ← lift (map_err bad_signal (new Defs.message public nil_uuid payload))
    send_to e net h sig
