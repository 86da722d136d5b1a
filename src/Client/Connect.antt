-- ===== src/Client/Connect.antt =====
-- client/handlers.go and client/peer.go: how sessions begin. A connection is what the handshake
-- writes to it and reads from it.
pub mod Registration
mod Tests
use end_to_end_chat.Base.{
  ℕ, ◌+◌, Bytes, List, [], ◌∷◌, Bool, false, true, not, ◌&&◌, ◌==◌, if◌then◌else◌, Option, none,
  some, length, bytes_eq,
}
use end_to_end_chat.Base.Dict.{insert, remove}
use end_to_end_chat.Base.Outcome.{Outcome, ok, err, panic, map_err, guard}
use end_to_end_chat.Base.Op
use end_to_end_chat.Base.Op.{return, lift, modify, attempt}
use end_to_end_chat.Config.{pub_key_len}
use end_to_end_chat.Signal.Defs.{nil_uuid}
use end_to_end_chat.Keys.Defs.{from_hex}
use end_to_end_chat.Store.Defs.{Draws, Env, StoreError, not_exist}
use end_to_end_chat.Store.Peers.{
  KnownPeer, PeerStatus, add_peer, get_peer, pending, accepted, rejected,
}
use end_to_end_chat.Client.Session.Defs.{Session, SessionError, new_session, set_status}
use end_to_end_chat.Client.Session.Cipher.{close_conn}
use end_to_end_chat.Client.Session.Handshake.{handshake}
use end_to_end_chat.Client.State.{
  ◌>>=◌, ◌>>◌, Client, Handler, Net, on_store, gets, set_object, session_of, store_failed,
  session_failed, session_exists,
}
use end_to_end_chat.Client.Peers.{get_name, request_peer_info, save_peer}
use end_to_end_chat.Client.Outbox.{flush_outbox}
use end_to_end_chat.Client.Loop.{seen, read_loop}
use end_to_end_chat.Client.Http.{
  Api, HttpError, or_status, present, store_or, quietly, bad_request, forbidden, conflict,
  internal_server_error, upgrade_failed,
}

-- `our_key` is the ephemeral key that is drawn, `now` the time.
pub record Connection : Type 0 where
  pub write : Bytes → Outcome SessionError (Unit {0})
  pub raw : Outcome SessionError Bytes
  pub our_key : Bytes
  pub now : ℕ

module _ (e : Env) where
  key_of_text : Option Bytes → Bool
  key_of_text none = false
  key_of_text (some b) = length b == 32

  unfoldable pub is_valid_pub_key : Bytes → Bool
  unfolding key_of_text
  is_valid_pub_key s = (length s == pub_key_len) && key_of_text (e.hex.decode s)

  abbrev pub new_peer : Bytes → Bytes → KnownPeer
  new_peer ip key = record {
    peer_ip = e.parse_ip ip;
    pub_key = key;
    name = [];
    nickname = [];
    status = pending;
    online = false;
    last_seen = none;
    profile_pic = nil_uuid;
  }

  -- A peer that is not known is saved as pending.
  unfoldable pub peer_status : Bytes → Bytes → Outcome StoreError KnownPeer → Api e PeerStatus
  peer_status ip key (ok peer) = return peer.status
  peer_status ip key (err not_exist) =
      Op.◌>>=◌ (store_or e internal_server_error λ _. add_peer e (new_peer ip key))
        λ _. return pending
  peer_status ip key (err _) = lift (err internal_server_error)
  peer_status ip key (panic p) = lift (panic p)

  abbrev pub without_session : Option ℕ → Outcome HttpError (Unit {0})
  without_session none = ok tt
  without_session (some _) = err conflict

  abbrev pub other_than_own : Bytes → Client e → Outcome HttpError (Unit {0})
  other_than_own key c = guard (not (bytes_eq key c.public)) forbidden

  -- `handleWS` up to the upgrade: `text` is the path behind `/transport/`, `remote` the host of the
  -- remote address, if that has one.
  unfoldable pub admit : Bytes → Option Bytes → Api e (Bytes × PeerStatus)
  unfolding is_valid_pub_key peer_status
  admit text remote = Op.◌>>=◌ (lift (guard (is_valid_pub_key text) bad_request)) λ _.
      Op.◌>>=◌ (lift (or_status bad_request (from_hex e.hex text))) λ key.
        Op.◌>>=◌ (λ c. (c, other_than_own key c))
          λ _. Op.◌>>=◌ (lift (present bad_request remote)) λ ip.
            Op.◌>>=◌ (λ c. peer_status ip key (get_peer e key c.store) c)
              λ status. Op.◌>>=◌ (lift (guard (not (bytes_eq status rejected)) forbidden)) λ _.
                Op.◌>>=◌ (λ c. (c, without_session (session_of e key c))) λ _. return (key, status)

  closed_existing : ℕ → Bytes → Option ℕ → Handler e (Unit {0})
  closed_existing now key none = return tt
  closed_existing now key (some h) = do
    modify λ c. record c { sessions = remove key c.sessions }
    _ ← (λ c. seen e now (get_peer e key c.store) c)
    modify λ c. set_object e h (close_conn (c.objects h)) c

  unfoldable pub close_existing_session : ℕ → Bytes → Handler e (Unit {0})
  unfolding closed_existing
  close_existing_session now key c = closed_existing now key (session_of e key c) c

  -- A session as a new object, in the table under a key.
  abbrev pub register : Bytes → Session → Client e → Client e
  register key s c = record c {
    objects = λ k. if c.next_object == k then s else c.objects k;
    next_object = c.next_object + 1;
    sessions = insert key c.next_object c.sessions;
  }

  -- The name that a known peer gave in the handshake; the error is dropped.
  unfoldable pub rename_peer : Bytes → Outcome StoreError KnownPeer → Handler e (Option (Unit {0}))
  rename_peer name (ok peer) = attempt (save_peer e (record peer { name = name }))
  rename_peer name (err _) = return none
  rename_peer name (panic p) = lift (panic p)

  -- `newSession`, with the keys of the client.
  abbrev pub own_session : ℕ → Client e → Session
  own_session now c = new_session (get_name e c) c.public c.private c.rate_limit c.rate_window now

  abbrev pub shake : Connection → Bool → Session → Outcome SessionError Session
  shake conn initiator s = handshake e.crypto conn.write conn.raw s initiator conn.our_key

  unfoldable pub ask_stranger : Net → PeerStatus → ℕ → Handler e (Option (Unit {0}))
  ask_stranger net status h =
      if bytes_eq status pending then attempt (request_peer_info e net h) else return none

  -- `startSession` up to the loop: the session is in the table under `key`.
  unfoldable pub start_session : Net → Connection → Bytes → PeerStatus → Handler e ℕ
  unfolding rename_peer ask_stranger
  start_session net conn key status = do
    s ← (λ c.
        (c, map_err session_failed (shake conn false (set_status (own_session conn.now c) status))))
    h ← gets e λ c. c.next_object
    modify (register key s)
    _ ← (λ c. rename_peer s.peer.name (get_peer e key c.store) c)
    flush_outbox e net key
    _ ← ask_stranger net status h
    return h

  -- The loop runs for the key that the handshake authenticated.
  unfoldable pub serve : Net → List (Draws × Bytes) → ℕ → Option ℕ → Handler e (Unit {0})
  serve net inputs now none = return tt
  serve net inputs now (some h) =
      λ c. read_loop e net inputs now h (c.objects h).peer.static_pub_key c

  -- `handleWS` from the request to the end of the connection, which delivers `inputs` and ends at
  -- `now`. `upgraded` says whether the upgrade succeeds.
  unfoldable pub handle_ws :
      Net → Connection → Bool → List (Draws × Bytes) → ℕ → Bytes → Option Bytes → Api e (Unit {0})
  unfolding admit close_existing_session start_session serve
  handle_ws net conn upgraded inputs now text remote = Op.◌>>=◌ (admit text remote) λ admitted.
      Op.◌>>=◌ (lift (guard upgraded upgrade_failed)) λ _.
        Op.◌>>=◌ (quietly e (close_existing_session conn.now admitted.0)) λ _.
          Op.◌>>=◌ (quietly e (start_session net conn admitted.0 admitted.1))
            λ started. Op.◌>>=◌ (quietly e (serve net inputs now started)) λ _. return tt

  -- The status that `storeSession` finds for a peer.
  abbrev pub status_or_pending : Outcome StoreError KnownPeer → PeerStatus
  status_or_pending (ok peer) = peer.status
  status_or_pending (err _) = pending
  status_or_pending (panic _) = pending

  new_only : Option ℕ → Handler e (Unit {0})
  new_only none = return tt
  new_only (some _) = lift (err session_exists)

  -- `storeSession`: the session is in the table under the key of its peer.
  unfoldable pub store_session : Net → Session → Handler e ℕ
  unfolding new_only rename_peer
  store_session net s = do
    let key = s.peer.static_pub_key
    (λ c. new_only (session_of e key c) c)
    status ← gets e λ c. status_or_pending (get_peer e key c.store)
    _ ← (λ c. rename_peer s.peer.name (get_peer e key c.store) c)
    h ← gets e λ c. c.next_object
    modify (register key (set_status s status))
    flush_outbox e net key
    return h

  abbrev pub is_new : Outcome StoreError KnownPeer → Bool
  is_new (ok _) = false
  is_new (err _) = true
  is_new (panic _) = true

  -- `parsePeerIP`: `host` is what `SplitHostPort` finds in the address.
  unfoldable pub parse_peer_ip : Bytes → Option Bytes → Bytes
  parse_peer_ip addr none = e.parse_ip addr
  parse_peer_ip addr (some host) = e.parse_ip host

  abbrev pub dialed_peer : Bytes → Option Bytes → Session → KnownPeer
  dialed_peer addr host s = record {
    peer_ip = parse_peer_ip addr host;
    pub_key = s.peer.static_pub_key;
    name = s.peer.name;
    nickname = [];
    status = accepted;
    online = false;
    last_seen = none;
    profile_pic = nil_uuid;
  }

  -- `dialAndHandshake` once the connection is there.
  unfoldable pub dial_and_handshake : Net → Connection → Bytes → Option Bytes → Handler e ℕ
  unfolding store_session
  dial_and_handshake net conn addr host = do
    s ← (λ c. (c, map_err session_failed (shake conn true (own_session conn.now c))))
    fresh ← gets e λ c. is_new (get_peer e s.peer.static_pub_key c.store)
    _ ← (if fresh then attempt (save_peer e (dialed_peer addr host s)) else return none)
    h ← store_session net s
    _ ←
        (if fresh
          then (do
            modify λ c. set_object e h (set_status (c.objects h) pending) c
            attempt (request_peer_info e net h))
          else return none)
    return h

  -- `connectSession`, and the loop that it starts.
  unfoldable pub connect_session :
      Net → Connection → List (Draws × Bytes) → ℕ → Bytes → Option Bytes → Handler e (Unit {0})
  unfolding dial_and_handshake serve
  connect_session net conn inputs now addr host = do
    h ← dial_and_handshake net conn addr host
    serve net inputs now (some h)
