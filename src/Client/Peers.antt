-- ===== src/Client/Peers.antt =====
-- client/client.go: what the client knows of itself and of its peers, and the answers to the
-- signals about them.
use end_to_end_chat.Base.{
  ℕ, Bytes, [], ◌∷◌, ◌&&◌, ◌==◌, if◌then◌else◌, Option, none, some, length, take, bytes_eq,
}
use end_to_end_chat.Base.Outcome.{Outcome, ok, err, panic, map_err}
use end_to_end_chat.Base.Op.{return, lift, modify, attempt}
use end_to_end_chat.Signal.Defs.{nil_uuid, info_request, info_response}
use end_to_end_chat.Signal.New.{new}
use end_to_end_chat.Keys.Defs.{to_string}
use end_to_end_chat.Store.Defs.{Draws, Env, StoreError}
use end_to_end_chat.Store.Files.{put_file, get_file, delete_file}
use end_to_end_chat.Store.Peers.{KnownPeer, add_peer, get_peer, accepted}
use end_to_end_chat.Store.Profile.{Profile, get_profile}
use end_to_end_chat.Client.Codec.InfoResponse.{
  InfoResponse, encode_info_response, decode_info_response,
}
use end_to_end_chat.Client.Session.Defs.{set_status}
use end_to_end_chat.Client.State.{
  ◌>>=◌, ◌>>◌, Client, Handler, Net, on_store, gets, reads, set_object, send_to, session_of,
  no_session, store_failed, bad_info_response, bad_signal,
}

module _ (e : Env) where
  profile_or_empty : Outcome StoreError Profile → Profile
  profile_or_empty (ok p) = p
  profile_or_empty (err _) = record { name = []; profile_pic = nil_uuid }
  profile_or_empty (panic _) = record { name = []; profile_pic = nil_uuid }

  -- `Info`, with `Info{}` where the profile cannot be read.
  unfoldable pub info : Client e → Profile
  unfolding profile_or_empty
  info c = profile_or_empty (get_profile e c.store)

  unfoldable pub get_name : Client e → Bytes
  unfolding info
  get_name c = (info c).name

  -- `pubKey.String()[:16]`
  abbrev pub short_key : Bytes → Bytes
  short_key key = take 16 (to_string e.hex key)

  name_of_peer : Bytes → Outcome StoreError KnownPeer → Bytes
  name_of_peer key (ok peer) =
      let n = if length peer.nickname == 0 then peer.name else peer.nickname in
      if length n == 0 then short_key key else n
  name_of_peer key (err _) = short_key key
  name_of_peer key (panic _) = short_key key

  -- `displayNameForPubKey`
  unfoldable pub display_name : Bytes → Client e → Bytes
  unfolding name_of_peer
  display_name key c = name_of_peer key (get_peer e key c.store)

  abbrev pub known_peer : Bytes → Handler e KnownPeer
  known_peer key = reads e store_failed λ c. get_peer e key c.store

  abbrev pub save_peer : KnownPeer → Handler e (Unit {0})
  save_peer peer = on_store e store_failed λ _. add_peer e peer

  -- The session of a peer, where there is one.
  unfoldable pub require_session : Option ℕ → Handler e ℕ
  require_session none = λ c. (c, err no_session)
  require_session (some h) = return h

  unfoldable pub loaded_session : Bytes → Handler e ℕ
  unfolding require_session
  loaded_session key = λ c. require_session (session_of e key c) c

  -- `requestPeerInfo`
  unfoldable pub request_peer_info : Net → ℕ → Handler e (Unit {0})
  request_peer_info net h = do
    public ← gets e λ c. c.public
    sig ← lift (map_err bad_signal (new info_request public nil_uuid []))
    send_to e net h sig

  picture_or_empty : Outcome StoreError Bytes → Bytes
  picture_or_empty (ok pic) = pic
  picture_or_empty (err _) = []
  picture_or_empty (panic _) = []

  -- The picture of an answer: none, if there is no picture or it cannot be read.
  unfoldable pub own_picture : Profile → Client e → Bytes
  unfolding picture_or_empty
  own_picture p c =
      if bytes_eq p.profile_pic nil_uuid
      then []
      else picture_or_empty (get_file e c.private p.profile_pic c.store)

  unfoldable pub handle_info_request : Net → Bytes → Handler e (Unit {0})
  unfolding own_picture
  handle_info_request net key = do
    own ← gets e info
    pic ← gets e (own_picture own)
    payload ← lift (encode_info_response (record { name = own.name; profile_pic = pic }))
    public ← gets e λ c. c.public
    sig ← lift (map_err bad_signal (new info_response public nil_uuid payload))
    h ← loaded_session key
    send_to e net h sig

  -- The new picture is stored before the old one is deleted.
  unfoldable pub store_picture : Draws → Bytes → Bytes → Handler e Bytes
  store_picture d old [] = return nil_uuid
  store_picture d old (x ∷ pic) = do
    on_store e store_failed λ c. put_file e d.nonce d.now c.private d.fresh [] (x ∷ pic)
    on_store e store_failed λ c. modify (delete_file e old)
    return d.fresh

  -- What an answer changes of a peer.
  unfoldable pub informed : Bytes → Bytes → KnownPeer → KnownPeer
  informed name id peer =
      let named = if length name == 0 then peer else record peer { name = name } in
      if bytes_eq id nil_uuid then named else record named { profile_pic = id }

  unfoldable pub update_peer : Draws → Bytes → InfoResponse → Handler e (Unit {0})
  unfolding store_picture informed
  update_peer d key resp = do
    peer ← known_peer key
    id ← store_picture d peer.profile_pic resp.profile_pic
    save_peer (informed resp.name id peer)

  unfoldable pub handle_info_response : Draws → Bytes → Bytes → Handler e (Unit {0})
  unfolding update_peer
  handle_info_response d key content = do
    resp ← lift (map_err bad_info_response (decode_info_response content))
    (if length resp.name == 0 && length resp.profile_pic == 0
        then return tt
        else update_peer d key resp)

  unfoldable pub handle_info_changed : Net → Bytes → Handler e (Unit {0})
  handle_info_changed net key = do h ← loaded_session key; request_peer_info net h

  unfoldable pub set_status_of : Option ℕ → Bytes → Client e → Client e
  set_status_of none status c = c
  set_status_of (some h) status c = set_object e h (set_status (c.objects h) status) c

  -- The session of a peer, if there is one, gets the status.
  unfoldable pub set_session_status : Bytes → Bytes → Client e → Client e
  unfolding set_status_of
  set_session_status key status c = set_status_of (session_of e key c) status c

  -- An error of the store is logged, and the session is accepted all the same.
  unfoldable pub handle_peer_accepted : Bytes → Handler e (Unit {0})
  unfolding set_session_status
  handle_peer_accepted key = do
    peer ← known_peer key
    _ ← attempt (save_peer (record peer { status = accepted }))
    modify (set_session_status key accepted)
