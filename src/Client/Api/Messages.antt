-- ===== src/Client/Api/Messages.antt =====
-- client/api.go: the handlers for messages and files. An id is what `uuid.Parse` reads in the path,
-- if that is a UUID; a body is what could be decoded of it.
use end_to_end_chat.Base.{
  ℕ, ◌+◌, Bytes, List, [], ◌∷◌, Bool, true, not, ◌==◌, ltb, if◌then◌else◌, Option, none, some,
  length, take, bytes_eq, ℤ, pos, negsuc, map,
}
use end_to_end_chat.Base.Outcome
use end_to_end_chat.Base.Outcome.{Outcome, ok, err, map_err, guard}
use end_to_end_chat.Base.Op.{◌>>=◌, ◌>>◌, return, lift}
use end_to_end_chat.Config.{file_chunk_size}
use end_to_end_chat.Signal.Defs.{nil_uuid}
use end_to_end_chat.Keys.Defs.{nil_key}
use end_to_end_chat.Store.Defs.{Draws, Env, StoreError}
use end_to_end_chat.Store.Peers.{KnownPeer, get_peer, accepted, rejected}
use end_to_end_chat.Store.Files.{get_file}
use end_to_end_chat.Message.Defs.{Attachment, Message}
use end_to_end_chat.Message.Attachments.{store_attachments}
use end_to_end_chat.Message.Repository
use end_to_end_chat.Message.Search.{search}
use end_to_end_chat.Client.State.{Client, Handler, Net, on_store, session_of, store_failed}
use end_to_end_chat.Client.Peers.{get_name, short_key}
use end_to_end_chat.Client.Sending.{new_message}
use end_to_end_chat.Client.Outbox.{send_message_to_peer}
use end_to_end_chat.Client.FileSending.{reads_of, send_file}
use end_to_end_chat.Client.Broadcasts.{broadcast_delete, broadcast_update, each_session}
use end_to_end_chat.Client.Http.{
  Api, HttpError, or_status, present, store_or, quietly, bad_request, forbidden, not_found,
  internal_server_error,
}
use end_to_end_chat.Client.Api.Peers.{key_in_path, peer_or, handler_or}

-- A file of a form: `contents` is what `Open` and `ReadAll` give.
pub record FormFile : Type 0 where
  pub filename : Bytes
  pub content_type : Bytes
  pub size : ℕ
  pub contents : Option Bytes

abbrev pub attached : ℕ → FormFile → Bytes → Attachment
attached max_size f contents = record {
  id = nil_uuid;
  name = f.filename;
  mime_type = f.content_type;
  size = pos (length (take max_size contents));
  contents = take max_size contents;
}

-- The loop of `parseMessageForm` over the files, from the size that it has counted so far.
unfoldable pub parse_files : ℕ → ℕ → List FormFile → Outcome HttpError (List Attachment)
parse_files max_size total [] = ok []
parse_files max_size total (f ∷ files) =
    Outcome.◌>>=◌ (guard (not (ltb max_size (total + f.size))) bad_request) λ _.
      Outcome.◌>>=◌ (present bad_request f.contents) λ contents.
        Outcome.◌>>=◌ (parse_files max_size (total + f.size) files)
          λ rest. ok (attached max_size f contents ∷ rest)

-- An attachment as it stands in the message.
abbrev pub listed : Draws × Attachment → Attachment
listed item = record (item.1) { id = item.0.fresh; contents = [] }

abbrev pub identified : Draws × Attachment → Draws × Attachment
identified item = (item.0, record (item.1) { id = item.0.fresh })

-- What `io.LimitReader` lets through of the data: none, where the limit is negative.
abbrev pub limited : ℤ → Bytes → Bytes
limited (pos n) input = take n input
limited (negsuc n) input = []

-- A draw for each chunk.
abbrev pub file_reads : (ℕ → Draws) → ℕ → List Bytes → List (Draws × Bytes)
file_reads draw n [] = []
file_reads draw n (chunk ∷ rest) = (draw n, chunk) ∷ file_reads draw (n + 1) rest

abbrev pub attachment_reads : (ℕ → Draws) → Attachment → List (Draws × Bytes)
attachment_reads draw a =
    let input = limited a.size a.contents in
    file_reads draw 0 (reads_of (length input) file_chunk_size input)

module _ (e : Env) where
  unfoldable pub get_owned_message : ℕ → Bytes → Api e Message
  get_owned_message now id = do
    msg ← store_or e not_found λ c. Repository.get e now c.private id
    (λ c. (c, guard (bytes_eq msg.from_pub_key c.public) forbidden))
    return msg

  unfoldable pub api_update_message :
      Net → List ℕ → Draws → Option Bytes → Option Bytes → Api e (Unit {0})
  unfolding get_owned_message
  api_update_message net visits d id body = do
    id ← lift (present bad_request id)
    msg ← get_owned_message d.now id
    content ← lift (present bad_request body)
    lift (guard (not (length content == 0)) bad_request)
    own_name ← (λ c. (c, ok (get_name e c)))
    store_or e internal_server_error λ c.
        Repository.update e d.nonce d.now c.private id own_name (record msg { content = content })
    _ ← quietly e (broadcast_update e net visits id content)
    return tt

  unfoldable pub api_delete_message : Net → List ℕ → ℕ → Option Bytes → Api e (Unit {0})
  unfolding get_owned_message
  api_delete_message net visits now id = do
    id ← lift (present bad_request id)
    _ ← get_owned_message now id
    store_or e internal_server_error λ c. Repository.delete e now c.private id
    _ ← quietly e (broadcast_delete e net visits id)
    return tt

  author_name : Outcome StoreError KnownPeer → Bytes
  author_name (ok peer) = if length peer.nickname == 0 then peer.name else peer.nickname
  author_name (err _) = []
  author_name (Outcome.panic _) = []

  -- `from` of `msgResponse`.
  unfoldable pub response_from : Message → Client e → Bytes
  unfolding author_name
  response_from msg c =
      if bytes_eq msg.from_pub_key c.public
      then get_name e c
      else if bytes_eq msg.from_pub_key nil_key
      then []
      else author_name (get_peer e msg.from_pub_key c.store)

  unfoldable pub api_get_message : ℕ → Option Bytes → Api e (Message × Bytes)
  unfolding response_from
  api_get_message now id = do
    id ← lift (present bad_request id)
    msg ← store_or e not_found λ c. Repository.get e now c.private id
    (λ c. (c, ok (msg, response_from msg c)))

  -- `apiSearchMessages`, at most 50 hits; the query and `uuid.Parse` are as in `search`.
  unfoldable pub api_search_messages :
      (e.db.State → Bytes → ℕ → Option (List Bytes))
      → (Bytes → Option Bytes)
      → ℕ
      → Bytes
      → Api e (List (Message × Bytes))
  unfolding response_from
  api_search_messages matches parse now query =
      if length query == 0 then lift (err bad_request) else (do
        msgs ← store_or e internal_server_error λ c. search e matches parse now c.private query 50
        (λ c. (c, ok (map (λ msg. (msg, response_from msg c)) msgs))))

  unfoldable pub api_get_file : Option Bytes → Api e Bytes
  api_get_file id = do
    id ← lift (present bad_request id)
    (λ c. (c, or_status not_found (get_file e c.private id c.store)))

  -- The name of the peer, and whether what is sent now is queued, by the session that there is.
  abbrev pub peer_name : Bytes → Option ℕ → Client e → Bytes
  peer_name key none c = short_key e key
  peer_name key (some h) c = (c.objects h).peer.name

  abbrev pub is_queued : Option ℕ → Client e → Bool
  is_queued none c = true
  is_queued (some h) c = not (bytes_eq (c.objects h).stat accepted)

  abbrev pub not_rejected : Option ℕ → Client e → Outcome HttpError (Unit {0})
  not_rejected none c = ok tt
  not_rejected (some h) c = guard (not (bytes_eq (c.objects h).stat rejected)) forbidden

  abbrev pub send_attachment : Net → ℕ → (ℕ → Draws) → Draws × Attachment → Handler e (Unit {0})
  send_attachment net h draw item =
      let a = item.1 in
      send_file e net h a.id (record { name = a.name; size = a.size; mime = a.mime_type })
        (attachment_reads draw a)

  send_loaded_attachments :
      Net → (ℕ → Draws) → List (Draws × Attachment) → Option ℕ → Handler e (Unit {0})
  send_loaded_attachments net draw items none = λ c. (c, ok tt)
  send_loaded_attachments net draw items (some h) = λ c.
      if bytes_eq (c.objects h).stat accepted
      then each_session e (send_attachment net h draw) items c
      else (c, ok tt)

  -- `sendAttachments`
  unfoldable pub send_attachments :
      Net → (ℕ → Draws) → Bytes → List (Draws × Attachment) → Handler e (Unit {0})
  unfolding send_loaded_attachments
  send_attachments net draw key items =
      λ c. send_loaded_attachments net draw items (session_of e key c) c

  unfoldable pub send_and_store :
      Net → (ℕ → Draws) → Bytes → Bytes → List (Draws × Attachment) → Api e (Unit {0})
  unfolding send_attachments
  send_and_store net draw key id [] = return tt
  send_and_store net draw key id (item ∷ items) = do
    _ ← quietly e (send_attachments net draw key (item ∷ items))
    _ ← quietly e (
        on_store e store_failed
          λ c. store_attachments e c.private (e.uuid_string id) (item ∷ items))
    return tt

  -- `apiSendMessage` of a form: its content, and its attachments each with what is drawn for it.
  -- `d` is what storing the message draws, `d'` what queueing it draws. The reply says whether the
  -- message was queued.
  unfoldable pub api_send_message :
      Net
      → Draws
      → Draws
      → (ℕ → Draws)
      → Bytes
      → Outcome HttpError (Bytes × List (Draws × Attachment))
      → Api e Bool
  unfolding send_and_store
  api_send_message net d d' draw text form = do
    key ← lift (key_in_path e text)
    (λ c. (c, guard (not (bytes_eq key c.public)) bad_request))
    form ← lift form
    peer ← peer_or e not_found key
    lift (guard (not (bytes_eq peer.status rejected)) forbidden)
    (λ c. (c, not_rejected (session_of e key c) c))
    name ← (λ c. (c, ok (peer_name key (session_of e key c) c)))
    queued ← (λ c. (c, ok (is_queued (session_of e key c) c)))
    handler_or e internal_server_error
        (send_message_to_peer e net d d' key (new_message d name form.0 (map listed form.1)))
    send_and_store net draw key d.fresh (map identified form.1)
    return queued
