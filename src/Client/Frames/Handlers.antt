-- ===== src/Client/Frames/Handlers.antt =====
-- client/client.go: the handlers of information and of files do not touch the stored messages.
use end_to_end_chat.Base.{ℕ, refl, ap, Bytes, List, [], ◌∷◌, some, none, Option}
use end_to_end_chat.Base.Outcome.{Outcome, ok, err, panic}
use end_to_end_chat.Store.Defs.{Draws, Env, Store, Table, files, known_peers}
use end_to_end_chat.Store.Files.{put_file, delete_file}
use end_to_end_chat.Store.Peers.{KnownPeer, add_peer, accepted}
use end_to_end_chat.Store.Writes.{delete_file-answer, delete_file-cached}
use end_to_end_chat.Message.Defs.{Attachment}
use end_to_end_chat.Message.Attachments.{store_attachments, store_contents, file_id}
use end_to_end_chat.Client.State.{Client, Net, logged, session_of, PendingFile, send_to, set_object}
use end_to_end_chat.Client.Session.Defs.{SessionError}
use end_to_end_chat.Client.Session.Cipher.{send}
use end_to_end_chat.Client.Frames.{
  Same, Alike, Alike-refl, FramesStore, FramesClient, Frames-bind, Frames-then, Frames-lift,
  Frames-reads, Frames-modify, Frames-attempt, Frames-if, Frames-on_store, Frames-replace,
}
use end_to_end_chat.Client.Peers.{
  handle_info_request, handle_info_response, handle_info_changed, handle_peer_accepted,
  request_peer_info, loaded_session, require_session, store_picture, set_session_status,
  set_status_of,
}
use end_to_end_chat.Client.Files.{handle_file_chunk, add_chunk, finalize_file, is_complete, grown}

module _ (e : Env) where
  pub put_file-Frames :
      (nonce : Bytes) (now : ℕ) (secret id msg_id contents : Bytes)
      → FramesStore e (put_file e nonce now secret id msg_id contents)
  unfolding put_file
  put_file-Frames nonce now secret id msg_id contents =
      Frames-bind _ _ _ _ (Frames-lift _ _ _)
        λ encrypted. Frames-replace e files id _ λ id' q. cc (ap (λ (k : Table × Bytes). k.0) q)

  pub add_peer-Frames : (peer : KnownPeer) → FramesStore e (add_peer e peer)
  unfolding add_peer
  add_peer-Frames peer =
      Frames-replace e known_peers _ _ λ id' q. cc (ap (λ (k : Table × Bytes). k.0) q)

  pub delete_file-Same : (id : Bytes) (s : Store e) → Same e s (delete_file e id s)
  delete_file-Same id s = record {
    answers = λ id'. delete_file-answer e id id' s;
    cached = delete_file-cached e id s;
  }

  logged-Alike :
      (h : ℕ) (plain : Bytes) (r : Outcome SessionError (Unit {0})) (c : Client e)
      → Alike e (c.store, c.private) ((logged e h plain r c).store, (logged e h plain r c).private)
  logged-Alike h plain (ok _) c = Alike-refl e
  logged-Alike h plain (err _) c = Alike-refl e
  logged-Alike h plain (panic _) c = Alike-refl e

  pub send_to-Frames : (net : Net) (h : ℕ) (plain : Bytes) → FramesClient e (send_to e net h plain)
  unfolding send_to set_object
  send_to-Frames net h plain = record {
    at = λ c.
        let (s, r) = send e.crypto (net h) (c.objects h) plain in
        logged-Alike h plain r (set_object e h s c);
  }

  request_peer_info-Frames : (net : Net) (h : ℕ) → FramesClient e (request_peer_info e net h)
  unfolding request_peer_info
  request_peer_info-Frames net h =
      Frames-then e _ _ (Frames-reads _ _ _)
        λ public. Frames-then e _ _ (Frames-lift _ _ _) λ sig. send_to-Frames net h sig

  require_session-Frames : (o : Option ℕ) → FramesClient e (require_session e o)
  unfolding require_session
  require_session-Frames none = Frames-reads _ _ _
  require_session-Frames (some h) = Frames-lift _ _ _

  loaded_session-Frames : (key : Bytes) → FramesClient e (loaded_session e key)
  unfolding loaded_session
  loaded_session-Frames key = record {
    at = λ c. (require_session-Frames (session_of e key c)).at c;
  }

  pub handle_info_request-Frames :
      (net : Net) (key : Bytes) → FramesClient e (handle_info_request e net key)
  unfolding handle_info_request
  handle_info_request-Frames net key = Frames-then e _ _ (Frames-reads _ _ _) λ own.
      Frames-then e _ _ (Frames-reads _ _ _) λ pic. Frames-then e _ _ (Frames-lift _ _ _) λ payload.
        Frames-then e _ _ (Frames-reads _ _ _) λ public.
          Frames-then e _ _ (Frames-lift _ _ _)
            λ sig. Frames-then e _ _ (loaded_session-Frames key) λ h. send_to-Frames net h sig

  pub handle_info_changed-Frames :
      (net : Net) (key : Bytes) → FramesClient e (handle_info_changed e net key)
  unfolding handle_info_changed
  handle_info_changed-Frames net key =
      Frames-then e _ _ (loaded_session-Frames key) λ h. request_peer_info-Frames net h

  store_picture-Frames : (d : Draws) (old pic : Bytes) → FramesClient e (store_picture e d old pic)
  unfolding store_picture
  store_picture-Frames d old [] = Frames-lift _ _ _
  store_picture-Frames d old (x ∷ pic) =
      Frames-then e _ _ (Frames-on_store e _ _ λ c. put_file-Frames _ _ _ _ _ _) λ _.
        Frames-then e _ _
          (Frames-on_store e _ _ λ c.
            Frames-modify _ _ _ λ s. record { stored = delete_file-Same old s; private = refl })
          λ _. Frames-lift _ _ _

  pub handle_info_response-Frames :
      (d : Draws) (key content : Bytes) → FramesClient e (handle_info_response e d key content)
  unfolding handle_info_response
  handle_info_response-Frames d key content = Frames-then e _ _ (Frames-lift _ _ _) λ resp.
      Frames-if _ _ _ _ _ (Frames-lift _ _ _) (
        Frames-then e _ _ (Frames-reads _ _ _) λ peer.
          Frames-then e _ _ (store_picture-Frames d _ _)
            λ id. Frames-on_store e _ _ λ c. add_peer-Frames _)

  pub status-Alike :
      (o : Option ℕ) (status : Bytes) (c : Client e)
      → Alike e
          (c.store, c.private)
          ((set_status_of e o status c).store, (set_status_of e o status c).private)
  unfolding set_status_of set_object
  status-Alike none status c = Alike-refl e
  status-Alike (some h) status c = Alike-refl e

  pub handle_peer_accepted-Frames : (key : Bytes) → FramesClient e (handle_peer_accepted e key)
  unfolding handle_peer_accepted set_session_status
  handle_peer_accepted-Frames key = Frames-then e _ _ (Frames-reads _ _ _) λ peer.
      Frames-then e _ _ (Frames-attempt _ _ _ (Frames-on_store e _ _ λ c. add_peer-Frames _))
        λ _. Frames-modify _ _ _ λ c. status-Alike (session_of e key c) accepted c

  store_contents-Frames :
      (d : Draws) (secret msg_id : Bytes) (a : Attachment) (contents : Bytes)
      → FramesStore e (store_contents e d secret msg_id a contents)
  unfolding store_contents
  store_contents-Frames d secret msg_id a [] = Frames-lift _ _ _
  store_contents-Frames d secret msg_id a (x ∷ contents) =
      Frames-bind _ _ (put_file e d.nonce d.now secret (file_id d.fresh a) msg_id (x ∷ contents)) _
        (put_file-Frames _ _ _ _ _ _) λ _. Frames-lift _ _ _

  store_attachments-Frames :
      (secret msg_id : Bytes) (items : List (Draws × Attachment))
      → FramesStore e (store_attachments e secret msg_id items)
  unfolding store_attachments
  store_attachments-Frames secret msg_id [] = Frames-lift _ _ _
  store_attachments-Frames secret msg_id ((d, a) ∷ rest) =
      Frames-bind _ _ (store_contents e d secret msg_id a a.contents) _
        (store_contents-Frames d secret msg_id a a.contents)
        λ stored.
          Frames-bind _ _ (store_attachments e secret msg_id rest) _
            (store_attachments-Frames secret msg_id rest) λ others. Frames-lift _ _ _

  finalize_file-Frames :
      (d : Draws) (id : Bytes) (pf : PendingFile) → FramesClient e (finalize_file e d id pf)
  unfolding finalize_file
  finalize_file-Frames d id pf =
      Frames-then e _ _
        (Frames-attempt _ _ _ (Frames-on_store e _ _ λ c. store_attachments-Frames _ _ _))
        λ _. Frames-modify _ _ _ λ c. Alike-refl e

  add_chunk-Frames :
      (d : Draws) (id chunk : Bytes) (o : Option PendingFile)
      → FramesClient e (add_chunk e d id chunk o)
  unfolding add_chunk
  add_chunk-Frames d id chunk none = Frames-lift _ _ _
  add_chunk-Frames d id chunk (some pf) =
      Frames-then e _ _ (Frames-modify _ _ _ λ c. Alike-refl e) λ _.
        Frames-if _ _ (is_complete (grown chunk pf)) _ _
          (finalize_file-Frames d id (grown chunk pf)) (Frames-lift _ _ _)

  pub handle_file_chunk-Frames :
      (d : Draws) (plain : Bytes) → FramesClient e (handle_file_chunk e d plain)
  unfolding handle_file_chunk
  handle_file_chunk-Frames d plain =
      Frames-then e _ _ (Frames-lift _ _ _)
        λ _. record { at = λ c. (add_chunk-Frames d _ _ _).at c }
