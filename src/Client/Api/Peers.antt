-- ===== src/Client/Api/Peers.antt =====
-- client/api.go and client/routes.go: the handlers for peers, sessions and the outbox.
use end_to_end_chat.Base.{
  ℕ, Bytes, List, [], ◌∷◌, Bool, Option, none, some, bytes_eq, if◌then◌else◌, length, ◌==◌,
}
use end_to_end_chat.Base.Dict.{remove}
use end_to_end_chat.Base.Outcome.{Outcome, ok, err, map_err, guard}
use end_to_end_chat.Base.Op.{◌>>=◌, ◌>>◌, return, lift, modify}
use end_to_end_chat.Signal.Defs.{peer_accepted, nil_uuid}
use end_to_end_chat.Signal.New.{new}
use end_to_end_chat.Keys.Defs.{from_hex}
use end_to_end_chat.Store.Defs.{Env}
use end_to_end_chat.Store.Peers.{KnownPeer, PeerStatus, add_peer, get_peer, accepted, rejected}
use end_to_end_chat.Store.Outbox.{OutboxSignal, list_outbox, delete_entry}
use end_to_end_chat.Client.Session.Cipher.{close_conn}
use end_to_end_chat.Client.State.{Client, Handler, Net, session_of, set_object, send_to, bad_signal}
use end_to_end_chat.Client.Peers.{set_session_status}
use end_to_end_chat.Client.Outbox.{flush_outbox}
use end_to_end_chat.Client.Connect.{Connection, dial_and_handshake}
use end_to_end_chat.Client.Http.{
  Api, HttpError, or_status, present, store_or, quietly, replied, bad_request, forbidden, not_found,
  internal_server_error, bad_gateway,
}

-- `localhostOnly`: `host` is what `SplitHostPort` finds in the remote address, `loopback` whether
-- `net.ParseIP` reads it as a loopback address.
unfoldable pub localhost_only : (Bytes → Bool) → Option Bytes → Outcome HttpError (Unit {0})
localhost_only loopback none = err bad_request
localhost_only loopback (some host) = guard (loopback host) forbidden

module _ (e : Env) where
  abbrev pub key_in_path : Bytes → Outcome HttpError Bytes
  key_in_path text = or_status bad_request (from_hex e.hex text)

  abbrev pub peer_or : HttpError → Bytes → Api e KnownPeer
  peer_or x key = λ c. (c, or_status x (get_peer e key c.store))

  unfoldable pub update_peer_status : Bytes → PeerStatus → Api e KnownPeer
  update_peer_status text status = do
    key ← lift (key_in_path text)
    peer ← peer_or not_found key
    store_or e internal_server_error λ _. add_peer e (record peer { status = status })
    return (record peer { status = status })

  -- `LoadAndDelete`, and `closeConn` of what was there.
  unfoldable pub dropped : Bytes → Option ℕ → Client e → Client e
  dropped key none c = c
  dropped key (some h) c =
      set_object e h (close_conn (c.objects h)) (record c { sessions = remove key c.sessions })

  unfoldable pub drop_session : Bytes → Client e → Client e
  unfolding dropped
  drop_session key c = dropped key (session_of e key c) c

  unfoldable pub update_session_status : Bytes → PeerStatus → Client e → Client e
  unfolding drop_session
  update_session_status key status c =
      if bytes_eq status rejected then drop_session key c else set_session_status e key status c

  send_loaded : Net → Bytes → Option ℕ → Handler e (Unit {0})
  send_loaded net sig none = return tt
  send_loaded net sig (some h) = send_to e net h sig

  -- The session is accepted whatever was replied about the peer.
  unfoldable pub admin_accept_peer : Net → Bytes → Api e KnownPeer
  unfolding update_peer_status update_session_status send_loaded
  admin_accept_peer net text = do
    key ← lift (key_in_path text)
    reply ← replied e (update_peer_status text accepted)
    modify (update_session_status key accepted)
    sig ← (λ c. (
      c,
      or_status internal_server_error (map_err bad_signal (new peer_accepted c.public nil_uuid [])),
    ))
    _ ← quietly e (λ c. send_loaded net sig (session_of e key c) c)
    lift reply

  unfoldable pub admin_reject_peer : Bytes → Api e KnownPeer
  unfolding update_peer_status update_session_status
  admin_reject_peer text = do
    key ← lift (key_in_path text)
    reply ← replied e (update_peer_status text rejected)
    modify (update_session_status key rejected)
    lift reply

  unfoldable pub admin_delete_session : Bytes → Api e (Unit {0})
  unfolding drop_session
  admin_delete_session text = do
    key ← lift (key_in_path text)
    _ ← (λ c. (c, present not_found (session_of e key c)))
    modify (drop_session key)

  -- `nickname` is what the body says, if it can be decoded.
  unfoldable pub admin_set_nickname : Bytes → Option Bytes → Api e KnownPeer
  admin_set_nickname text nickname = do
    key ← lift (key_in_path text)
    nickname ← lift (present bad_request nickname)
    peer ← peer_or not_found key
    store_or e internal_server_error λ _. add_peer e (record peer { nickname = nickname })
    return (record peer { nickname = nickname })

  unfoldable pub admin_list_outbox : Api e (List OutboxSignal)
  admin_list_outbox = λ c. (c, or_status internal_server_error (list_outbox e c.store))

  -- `id` is what `uuid.Parse` reads in the path.
  unfoldable pub admin_delete_outbox_entry : Option Bytes → Api e (Unit {0})
  admin_delete_outbox_entry id = do
    id ← lift (present bad_request id)
    store_or e internal_server_error λ _. delete_entry e id

  unfoldable pub admin_flush_outbox : Net → Bytes → Api e (Unit {0})
  admin_flush_outbox net text = do
    key ← lift (key_in_path text)
    _ ← quietly e (flush_outbox e net key)
    return tt

  -- `validateAddr`: `split` is what `SplitHostPort` says of the address, `join` is `JoinHostPort`.
  unfoldable pub validate_addr :
      (Bytes → Bytes → Bytes) → Bytes → Option (Bytes × Bytes) → Bytes → Outcome HttpError Bytes
  validate_addr join default_port split [] = err bad_request
  validate_addr join default_port split (x ∷ addr) =
      if bytes_eq (x ∷ addr) (b':' ∷ []) then err bad_request else joined split
    where
      joined : Option (Bytes × Bytes) → Outcome HttpError Bytes
      joined none = ok (join (x ∷ addr) default_port)
      joined (some (host, port)) = ok (join host (if length port == 0 then default_port else port))

  abbrev pub handler_or : {A : Type 0} → HttpError → Handler e A → Api e A
  handler_or x m = λ c. let (c', r) = m c in (c', or_status x r)

  -- `apiConnectPeer`: `dial` says what dialing an address gives, with the host in the address; the
  -- loop of the new session runs beside the reply.
  unfoldable pub api_connect_peer :
      Net
      → (Bytes → Option (Connection × Option Bytes))
      → (Bytes → Bytes → Bytes)
      → Bytes
      → (Bytes → Option (Bytes × Bytes))
      → Option Bytes
      → Api e ℕ
  unfolding validate_addr
  api_connect_peer net dial join default_port split body = do
    text ← lift (present bad_request body)
    addr ← lift (validate_addr join default_port (split text) text)
    dialed ← lift (present bad_gateway (dial addr))
    handler_or bad_gateway (dial_and_handshake e net dialed.0 addr dialed.1)
