-- ===== src/Client/Acceptance.antt =====
-- client/client.go: `handlePeerAccepted` behind the gate of `handleDecrypted`.
use end_to_end_chat.Base.{
  ℕ, ◌≡◌, refl, Bytes, bytes_eq, arith, inl, inr, ◌⊎◌, false, true, ◌==◌, Option, some, none,
}
use end_to_end_chat.Base.Outcome.{ok, err}
use end_to_end_chat.Signal.Defs
use end_to_end_chat.Signal.Defs.{Signal}
use end_to_end_chat.Store.Defs.{Draws, Env, Store, exec_failed, known_peers}
use end_to_end_chat.Keys.Defs.{to_string}
use end_to_end_chat.Store.Statements.{executed}
use end_to_end_chat.Store.Peers.{KnownPeer, add_peer, get_peer, accepted, peer_row}
use end_to_end_chat.Client.State.{Client, Net, on_store, then_do, session_of, set_object}
use end_to_end_chat.Client.Session.Defs.{set_status}
use end_to_end_chat.Client.Peers.{handle_peer_accepted, set_session_status, set_status_of}
use end_to_end_chat.Client.Signals.{handle_signal, handle_type}
use end_to_end_chat.Client.Dispatch.{handle_from_stranger, handle_envelope}

module _ (e : Env) where
  executed-cases :
      (s : Store e) (o : Option e.db.State)
      → ((s' : Store e) × (executed e s o ≡ (s', ok tt))) ⊎ (executed e s o ≡ (s, err exec_failed))
  unfolding executed
  executed-cases s none = inr refl
  executed-cases s (some db) = inl (record s { tables = db }, refl)

  -- Adding a peer does not panic.
  pub add_peer-cases :
      (peer : KnownPeer) (s : Store e)
      → ((s' : Store e) × (add_peer e peer s ≡ (s', ok tt)))
        ⊎ (add_peer e peer s ≡ (s, err exec_failed))
  unfolding add_peer
  add_peer-cases peer s =
      executed-cases s
        (e.db.replace_row s.tables known_peers (to_string e.hex peer.pub_key) (peer_row e peer))

  accepted_session :
      (h : ℕ) (key : Bytes) (c : Client e)
      → session_of e key c ≡ some h
      → ((set_session_status e key accepted c).objects h).stat ≡ accepted
  unfolding set_session_status set_status_of set_object set_status
  accepted_session h key c session = rw (session, same) refl
    where
      same : (h == h) ≡ true
      same = ground arith

  handle_peer_accepted-status :
      (h : ℕ) (key : Bytes) (peer : KnownPeer) (c : Client e)
      → session_of e key c ≡ some h
      → get_peer e key c.store ≡ ok peer
      → (c' : Client e) × (handle_peer_accepted e key c ≡ (c', ok tt))
        × ((c'.objects h).stat ≡ accepted)
  unfolding handle_peer_accepted then_do on_store session_of
  handle_peer_accepted-status h key peer c session known =
      elim (add_peer-cases (record peer { status = accepted }) c.store) [
        | inl (s, added) ↦ (
          set_session_status e key accepted (record c { store = s }),
          rw (known, added) refl,
          accepted_session h key (record c { store = s }) session,
        )
        | inr failed ↦ (
          set_session_status e key accepted c,
          rw (known, failed) refl,
          accepted_session h key c session,
        )
      ]

  -- A `peer_accepted` signal that arrives on a session that is not accepted, from a known peer whose
  -- entry in the table of sessions is this session, ends without an error and makes the session
  -- accepted: the peer that asks to be accepted decides it.
  pub handle_envelope-accepts :
      (net : Net) (d : Draws) (sig : Signal) (h : ℕ) (key : Bytes) (peer : KnownPeer) (c : Client e)
      → sig.typ ≡ Defs.peer_accepted
      → bytes_eq (c.objects h).stat accepted ≡ false
      → session_of e key c ≡ some h
      → get_peer e key c.store ≡ ok peer
      → (c' : Client e) × (handle_envelope e net d sig h key c ≡ (c', ok tt))
        × ((c'.objects h).stat ≡ accepted)
  unfolding handle_envelope handle_from_stranger handle_signal handle_type bytes_eq
  handle_envelope-accepts net d sig h key peer c typ stranger session known =
      rw (stranger, typ) (handle_peer_accepted-status h key peer c session known)
