-- ===== src/Client/Connect/Registration.antt =====
-- client/handlers.go: under which key `startSession` registers a session, and what goes out on it.
use end_to_end_chat.Base.{
  ℕ, length, ◌≡◌, refl, sym, ap, ◌∙◌, Bytes, Bool, true, false, some, bytes_eq, bytes_eq_refl,
  if◌then◌else◌, ◌==◌, arith,
}
use end_to_end_chat.Base.Dict.{lookup, lookup-insert}
use end_to_end_chat.Base.Outcome.{Outcome, ok, err, panic, bind-eq-ok, ok-injective, guard}
use end_to_end_chat.Store.Defs.{Draws, Env, StoreError}
use end_to_end_chat.Store.Peers.{KnownPeer, PeerStatus, get_peer, accepted, pending}
use end_to_end_chat.Client.Crypto.{Crypto}
use end_to_end_chat.Client.Session.Defs.{
  Session, SessionError, bad_peer_key, shared_secret_failed, set_status,
}
use end_to_end_chat.Client.Session.Handshake.{
  handshake, swap_keys, verify_peer, share_secret, derive_keys, or_fail,
}
use end_to_end_chat.Client.State.{Client, Handler, Net, then_do, session_of, send_to}
use end_to_end_chat.Client.Outbox.{flush_outbox, queue_signal, send_or_queue}
use end_to_end_chat.Client.Steady.{
  IsSteady, then-IsSteady, reads-IsSteady, attempt-IsSteady, on_store-IsSteady, if-IsSteady,
  flush_outbox-IsSteady, request_peer_info-IsSteady,
}
use end_to_end_chat.Client.Connect.{
  Connection, start_session, rename_peer, ask_stranger, register, shake, own_session,
}

module _ (e : Env) where
  -- The handshake leaves the status of the session.
  handshake-stat :
      (c : Crypto) (write : Bytes → Outcome SessionError (Unit {0}))
      (raw : Outcome SessionError Bytes) (s : Session) (initiator : Bool) (our_key : Bytes)
      {s' : Session}
      → handshake c write raw s initiator our_key ≡ ok s'
      → s'.stat ≡ s.stat
  unfolding handshake share_secret derive_keys
  handshake-stat c write raw s initiator our_key h =
      let (peer, _, rest) =
        bind-eq-ok
          (swap_keys c write raw s initiator (c.x25519 our_key)
            (c.sign s.our_seed (c.x25519 our_key)))
          _ h in
      let (_, _, shared) = bind-eq-ok (verify_peer c s peer) _ rest in
      let (_, _, derived) = bind-eq-ok (guard (length peer.pub_key == 32) bad_peer_key) _ shared in
      let (secret, _, last) =
        bind-eq-ok (or_fail (c.ecdh our_key peer.pub_key) shared_secret_failed) _ derived in
      ap (λ (t : Session). t.stat) (sym (ok-injective last))

  rename_peer-IsSteady :
      (name : Bytes) (r : Outcome StoreError KnownPeer) → IsSteady e (rename_peer e name r)
  unfolding rename_peer
  rename_peer-IsSteady name (ok peer) = attempt-IsSteady e _ (on_store-IsSteady e _ _)
  rename_peer-IsSteady name (err _) = reads-IsSteady e _
  rename_peer-IsSteady name (panic _) = reads-IsSteady e _

  -- What follows the registration.
  abbrev settle : Net → Bytes → PeerStatus → Session → ℕ → Handler e ℕ
  settle net key status s h =
      then_do e (λ c. rename_peer e s.peer.name (get_peer e key c.store) c)
        λ _.
          then_do e (flush_outbox e net key)
            λ _. then_do e (ask_stranger e net status h) λ _. λ c. (c, ok h)

  settle-IsSteady :
      (net : Net) (key : Bytes) (status : PeerStatus) (s : Session) (h : ℕ)
      → IsSteady e (settle net key status s h)
  unfolding ask_stranger
  settle-IsSteady net key status s h =
      then-IsSteady e _ _
        (record { at = λ c. (rename_peer-IsSteady s.peer.name (get_peer e key c.store)).at c })
        λ _. then-IsSteady e _ _ (flush_outbox-IsSteady e net key) λ _.
          then-IsSteady e _ _
            (if-IsSteady e (bytes_eq status pending) _ _
              (attempt-IsSteady e _ (request_peer_info-IsSteady e net h)) (reads-IsSteady e _))
            λ _. reads-IsSteady e _

  -- A connection is accepted under the key in its path, with the status of the peer that has this
  -- key, and the handshake succeeds. Then, whatever becomes of the outbox, the session is in the
  -- table under the key in the path, and has this status, while its peer is the one that the
  -- handshake authenticated: the two keys are not compared. If the status is accepted, what is sent
  -- to the key in the path from then on goes out on this session.
  pub start_session-registers :
      (net : Net) (conn : Connection) (key : Bytes) (status : PeerStatus) (s : Session)
      (c : Client e)
      → shake e conn false (set_status (own_session e conn.now c) status) ≡ ok s
      → (c' : Client e) × (c' ≡ (start_session e net conn key status c).0)
        × (session_of e key c' ≡ some c.next_object)
        × ((c'.objects c.next_object).peer ≡ s.peer)
        × ((c'.objects c.next_object).stat ≡ status)
        × ((d : Draws) (sig : Bytes)
            → status ≡ accepted
            → send_or_queue e net d key sig (session_of e key c') c'
              ≡ send_to e net c.next_object sig c')
  unfolding start_session then_do session_of set_status send_or_queue
  start_session-registers net conn key status s c shaken =
      let c₁ = register e key s c in
      let c' = (settle net key status s c.next_object c₁).0 in
      let steady = (settle-IsSteady net key status s c.next_object).at c₁ in
      let there : session_of e key c' ≡ some c.next_object =
        ap (lookup key) steady.sessions
        ∙ lookup-insert key key c.next_object c.sessions
        ∙ ap (λ (b : Bool). if b then some c.next_object else lookup key c.sessions)
            (bytes_eq_refl key) in
      let own : (c₁.objects c.next_object) ≡ s =
        ap (λ (b : Bool). if b then s else c.objects c.next_object) (same c.next_object) in
      let stat : (c'.objects c.next_object).stat ≡ status =
        steady.statuses c.next_object
        ∙ ap (λ (t : Session). t.stat) own
        ∙ handshake-stat e.crypto conn.write conn.raw (set_status (own_session e conn.now c) status)
            false conn.our_key shaken in
      (
        c',
        rw shaken refl,
        there,
        steady.peers c.next_object ∙ ap (λ (t : Session). t.peer) own,
        stat,
        λ d sig known.
            ap (λ o. send_or_queue e net d key sig o c') there
            ∙ ap
                (λ b. if b then send_to e net c.next_object sig c' else queue_signal e d key sig c')
                (ap (λ t. bytes_eq t accepted) (stat ∙ known) ∙ bytes_eq_refl accepted),
      )
    where
      same : (n : ℕ) → (n == n) ≡ true
      same n = ground arith
