-- ===== src/Client/Api/Rejection.antt =====
-- client/api.go and client/handlers.go: a peer that is rejected, and comes back.
use end_to_end_chat.Base.{
  ℕ, ◌≡◌, ◌≢◌, refl, sym, ap, subst, ◌∙◌, Bytes, List, Bool, true, false, Option, none, some, inl,
  inr, ◌⊎◌, Option-cases, bytes_eq, bytes_eq_refl, bytes_eq-ne, if◌then◌else◌,
}
use end_to_end_chat.Base.Dict.{lookup, lookup-remove}
use end_to_end_chat.Base.Outcome.{ok, err}
use end_to_end_chat.Signal.Defs.{IsKey, IsUuid}
use end_to_end_chat.Keys.Defs.{to_string, from_hex}
use end_to_end_chat.Store.Defs.{Draws, Env, Store, known_peers, failed}
use end_to_end_chat.Store.Peers.{KnownPeer, get_peer, rejected}
use end_to_end_chat.Store.Records.{get_peer-add_peer}
use end_to_end_chat.Client.State.{Client, Net, session_of, set_object}
use end_to_end_chat.Client.Connect.{Connection, is_valid_pub_key, peer_status, admit, handle_ws}
use end_to_end_chat.Client.Http.{forbidden, internal_server_error}
use end_to_end_chat.Client.Api.Peers.{
  update_peer_status, update_session_status, drop_session, dropped, admin_reject_peer,
}

module _ (e : Env) where
  -- A request that is not turned away before, of a known peer that is rejected.
  handle_ws-rejected :
      (net : Net) (conn : Connection) (upgraded : Bool) (inputs : List (Draws × Bytes)) (now : ℕ)
      (text ip key : Bytes) (peer : KnownPeer) (c : Client e)
      → is_valid_pub_key e text ≡ true
      → from_hex e.hex text ≡ ok key
      → key ≢ c.public
      → get_peer e key c.store ≡ ok peer
      → peer.status ≡ rejected
      → handle_ws e net conn upgraded inputs now text (some ip) c ≡ (c, err forbidden)
  unfolding handle_ws admit peer_status
  handle_ws-rejected net conn upgraded inputs now text ip key peer c valid read other known out =
      rw (valid, read, bytes_eq-ne key c.public other, known, out, bytes_eq_refl rejected) refl

  dropped-session_of : (key : Bytes) (c : Client e) → session_of e key (drop_session e key c) ≡ none
  unfolding drop_session dropped session_of set_object
  dropped-session_of key c = elim (Option-cases (session_of e key c)) [
    | inl gone ↦ ap (λ o. lookup key (dropped e key o c).sessions) gone ∙ gone
    | inr (h, there) ↦
        ap (λ o. lookup key (dropped e key o c).sessions) there
        ∙ lookup-remove key key c.sessions
        ∙ ap (λ (b : Bool). if b then none else lookup key c.sessions) (bytes_eq_refl key)
  ]

  drop_session-rest :
      (key : Bytes) (c : Client e)
      → ((drop_session e key c).store ≡ c.store) × ((drop_session e key c).public ≡ c.public)
  unfolding drop_session dropped set_object
  drop_session-rest key c = rest (session_of e key c)
    where
      rest :
          (o : Option ℕ)
          → ((dropped e key o c).store ≡ c.store) × ((dropped e key o c).public ≡ c.public)
      rest none = (refl, refl)
      rest (some h) = (refl, refl)

  -- A known peer is rejected, under a path that is its key; its address is in the form that
  -- `ParseIP` gives, its id fits, and the queries for it are answered. There is no session of the
  -- peer from then on. Either the reply is the error of the statement, or it is the rejected peer,
  -- and then every request for a connection under its key is forbidden and changes nothing.
  pub admin_reject_peer-shuts :
      (text key : Bytes) (peer : KnownPeer) (c : Client e)
      → is_valid_pub_key e text ≡ true
      → from_hex e.hex text ≡ ok key
      → key ≢ c.public
      → get_peer e key c.store ≡ ok peer
      → peer.pub_key ≡ key
      → IsKey key
      → IsUuid peer.profile_pic
      → e.parse_ip (e.ip_string peer.peer_ip) ≡ peer.peer_ip
      → ((s : Store e) → e.db.select_row s.tables known_peers (to_string e.hex key) ≢ failed)
      → (c' : Client e) × (session_of e key c' ≡ none)
        × ((admin_reject_peer e text c ≡ (c', err internal_server_error))
            ⊎ ((admin_reject_peer e text c ≡ (c', ok (record peer { status = rejected })))
                × ((net : Net) (conn : Connection) (upgraded : Bool) (inputs : List (Draws × Bytes))
                      (now : ℕ) (ip : Bytes)
                    → handle_ws e net conn upgraded inputs now text (some ip) c'
                      ≡ (c', err forbidden))))
  unfolding admin_reject_peer update_peer_status update_session_status bytes_eq
  admin_reject_peer-shuts text key peer c valid read other known same fits pic ip alive =
      elim (get_peer-add_peer e (record peer { status = rejected }) c.store
        (subst IsKey (sym same) fits) pic ip) [
          | inl gone ↦
              (drop_session e key c, dropped-session_of key c, inl (rw (read, known, gone) refl))
          | inr (s', added, back) ↦
              let c₁ : Client e = record c { store = s' } in
              let (store, public) = drop_session-rest key c₁ in
              let there : get_peer e key s'
                  ≡ ok (record peer { status = rejected; last_seen = none; online = false }) =
                ap (λ k. get_peer e k s') (sym same)
                ∙ back (λ dead. alive s' (
                    ap (λ k. e.db.select_row s'.tables known_peers (to_string e.hex k)) (sym same)
                    ∙ dead)) in
              (
                drop_session e key c₁,
                dropped-session_of key c₁,
                inr (
                  rw (read, known, added) refl,
                  λ net conn upgraded inputs now ip.
                      handle_ws-rejected net conn upgraded inputs now text ip key
                        (record peer { status = rejected; last_seen = none; online = false })
                        (drop_session e key c₁) valid read (subst (λ p. key ≢ p) (sym public) other)
                        (ap (get_peer e key) store ∙ there) refl,
                ),
              )
        ]
