-- ===== src/Client/Loop.antt =====
-- client/handlers.go: `readLoop`, the packets that a connection delivers, and its end.
use end_to_end_chat.Base.{
  ℕ, ◌≡◌, ◌≢◌, refl, ap, ◌∙◌, Bytes, List, [], ◌∷◌, ◌==◌, if◌then◌else◌, Bool, bytes_eq_refl, some,
  none, Option, arith, inl, inr, subst, true, false,
}
use end_to_end_chat.Base.Dict.{remove, lookup, lookup-remove}
use end_to_end_chat.Base.Outcome.{Outcome, ok, err, panic}
use end_to_end_chat.Base.Op.{attempt, modify, return}
use end_to_end_chat.Store.Defs.{Draws, Env, Store, StoreError}
use end_to_end_chat.Store.Peers.{KnownPeer, add_peer, get_peer}
use end_to_end_chat.Client.Session.Cipher.{close_conn}
use end_to_end_chat.Client.Session.Defs.{Session}
use end_to_end_chat.Client.State.{
  ◌>>=◌, ◌>>◌, Client, Handler, Net, on_store, then_do, set_object, session_of, store_failed,
}
use end_to_end_chat.Client.Acceptance.{add_peer-cases}
use end_to_end_chat.Client.Frames.{Same, Same-refl}
use end_to_end_chat.Client.Frames.Handlers.{add_peer-Frames}
use end_to_end_chat.Client.Dispatch.{receive}

module _ (e : Env) where
  -- The errors of a turn are logged, and the loop goes on; it ends when the connection does.
  unfoldable pub turns : Net → List (Draws × Bytes) → ℕ → Bytes → Handler e (Unit {0})
  turns net [] h key = return tt
  turns net ((d, input) ∷ rest) h key = do
    _ ← attempt (receive e net d input h key)
    turns net rest h key

  -- The time at which a known peer was seen last; the error is dropped.
  unfoldable pub seen : ℕ → Outcome StoreError KnownPeer → Handler e (Option (Unit {0}))
  seen now (ok peer) =
      attempt (on_store e store_failed λ c. add_peer e (record peer { last_seen = some now }))
  seen now (err _) = return none
  seen now (panic _) = return none

  -- What `readLoop` defers: the entry of the peer is deleted, whichever session it is.
  unfoldable pub end_loop : ℕ → ℕ → Bytes → Handler e (Unit {0})
  unfolding seen
  end_loop now h key = do
    modify λ c. record c { sessions = remove key c.sessions }
    _ ← (λ c. seen now (get_peer e key c.store) c)
    modify λ c. set_object e h (close_conn (c.objects h)) c

  unfoldable pub read_loop : Net → List (Draws × Bytes) → ℕ → ℕ → Bytes → Handler e (Unit {0})
  unfolding turns end_loop
  read_loop net inputs now h key = turns net inputs h key >> end_loop now h key

  -- The store is all that the note of the time changes.
  seen-store :
      (now : ℕ) (r : Outcome StoreError KnownPeer) (c : Client e)
      → (c' : Client e) × (o : Option (Unit {0})) × (seen now r c ≡ (c', ok o))
        × (c'.sessions ≡ c.sessions)
        × (c'.objects ≡ c.objects)
        × Same e c.store c'.store
  unfolding seen on_store
  seen-store now (ok peer) c =
      let p = record peer { last_seen = some now } in
      let same = ((add_peer-Frames e p).at c.store).stored in
      elim (add_peer-cases e p c.store) [
        | inl (s, added) ↦ (
          record c { store = s },
          some tt,
          rw added refl,
          refl,
          refl,
          subst (λ (q : Store e × Outcome StoreError (Unit {0})). Same e c.store q.0) added same,
        )
        | inr failed ↦ (c, none, rw failed refl, refl, refl, Same-refl e)
      ]
  seen-store now (err _) c = (c, none, refl, refl, refl, Same-refl e)
  seen-store now (panic _) c = (c, none, refl, refl, refl, Same-refl e)

  -- The end of a read loop does not fail. From then on there is no session of the peer in the table,
  -- whether the loop's own or another one that has taken its place; the loop's session has neither a
  -- key to send nor one to receive, every other session is what it was, and so is every stored message.
  pub end_loop-removes :
      (now h : ℕ) (key : Bytes) (c : Client e)
      → (c' : Client e) × (end_loop now h key c ≡ (c', ok tt))
        × (session_of e key c' ≡ none)
        × ((c'.objects h).sendr.key ≡ none)
        × ((c'.objects h).recv.key ≡ none)
        × ((h' : ℕ) → h ≢ h' → c'.objects h' ≡ c.objects h')
        × Same e c.store c'.store
  unfolding end_loop then_do set_object session_of close_conn
  end_loop-removes now h key c =
      let c₁ : Client e = record c { sessions = remove key c.sessions } in
      let (c₂, o, noted, table, objects, same) = seen-store now (get_peer e key c.store) c₁ in
      (
        set_object e h (close_conn (c₂.objects h)) c₂,
        rw noted refl,
        ap (lookup key) table
            ∙ lookup-remove key key c.sessions
            ∙ ap (λ (b : Bool). if b then none else lookup key c.sessions) (bytes_eq_refl key),
        ap (λ (b : Bool). (if b then close_conn (c₂.objects h) else c₂.objects h).sendr.key)
            (own h),
        ap (λ (b : Bool). (if b then close_conn (c₂.objects h) else c₂.objects h).recv.key) (own h),
        λ h' differ.
            ap (λ (b : Bool). if b then close_conn (c₂.objects h) else c₂.objects h')
              (foreign h h' differ)
            ∙ ap (λ (f : ℕ → Session). f h') objects,
        same,
      )
    where
      own : (n : ℕ) → (n == n) ≡ true
      own n = ground arith

      foreign : (n m : ℕ) → n ≢ m → (n == m) ≡ false
      foreign n m differ = ground arith
