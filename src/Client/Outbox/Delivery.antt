-- ===== src/Client/Outbox/Delivery.antt =====
-- client/client.go: `flushOutbox` for a peer with an accepted session.
use mathlib.Core.List.Permᴰ
use mathlib.Core.List.{Permᴰ}
use end_to_end_chat.Base.{
  ℕ, ◌≡◌, ◌≢◌, refl, sym, ap, subst, ◌∙◌, Bytes, List, [], ◌∷◌, ◌++◌, append-nil, some, inl, inr,
  true, bytes_eq, if◌then◌else◌,
}
use end_to_end_chat.Base.Outcome.{Outcome, ok, err, panic, Panic}
use end_to_end_chat.Keys.Defs.{to_string}
use end_to_end_chat.Store.Defs.{Env, OutboxRow}
use end_to_end_chat.Store.Peers.{accepted}
use end_to_end_chat.Store.Outbox.{OutboxSignal, get_outbox}
use end_to_end_chat.Store.Outbox.Laws.{get_outbox-rows}
use end_to_end_chat.Client.Crypto.{is_aes_key}
use end_to_end_chat.Client.Session.Defs.{Session, SessionError}
use end_to_end_chat.Client.Session.Cipher.{encrypt, encrypt_under, with_gcm, send}
use end_to_end_chat.Client.State.{Client, Net, session_of}
use end_to_end_chat.Client.Outbox.{flush_entries, flush_ready, flush_read, flush_outbox}
use end_to_end_chat.Store.Outbox.Rows.{Answers, IsQueue}
use end_to_end_chat.Client.Outbox.Flush.{
  Flushed, Refused, session_behind, retried, sent_on, flush_entries-Flushed,
}

perm_nil : (entries : List OutboxSignal) → Permᴰ [] entries → entries ≡ []
perm_nil [] perm = refl
perm_nil (a ∷ entries) perm = cc (Permᴰ.length-eq perm)

module _ (e : Env) where
  flush_outbox-accepted :
      (net : Net) (h : ℕ) (key : Bytes) (c : Client e) (entries : List OutboxSignal)
      → session_of e key c ≡ some h
      → (c.objects h).stat ≡ accepted
      → get_outbox e key c.private c.store ≡ ok entries
      → flush_outbox e net key c ≡ flush_entries e net h entries c
  unfolding flush_outbox flush_read flush_ready flush_entries bytes_eq
  flush_outbox-accepted net h key c [] loaded allowed read = rw read refl
  flush_outbox-accepted net h key c (a ∷ entries) loaded allowed read =
      rw (read, loaded)
        (ap
          (λ st.
            (if bytes_eq st accepted then flush_entries e net h (a ∷ entries) c else (c, ok tt)))
          allowed)

  -- The outbox of a peer with an accepted session is flushed, the connection does not panic, the
  -- statements and the queries on the outbox answer, and the rows of the peer have distinct ids,
  -- which are texts of UUIDs. Then the flush ends, and it has sent the entries in order up to the
  -- first that the session refused, in its state behind those before, if there is one. What it sent is no longer in the outbox, all
  -- that it did not send still is, in an order
  -- that is not fixed, and the retry count of the refused entry is one higher.
  pub flush_outbox-Flushed :
      (net : Net) (h : ℕ) (key : Bytes) (c : Client e) (entries : List OutboxSignal)
      → ((p : Bytes) (q : Panic) → net h p ≢ panic q)
      → Answers e
      → ((rows : List OutboxRow)
          → e.outbox.of_target c.store.queue (to_string e.hex key) ≡ some rows
          → IsQueue e rows)
      → session_of e key c ≡ some h
      → (c.objects h).stat ≡ accepted
      → get_outbox e key c.private c.store ≡ ok entries
      → (c' : Client e) × (flush_outbox e net key c ≡ (c', ok tt))
        × Flushed e net h key c.private entries c c'
  flush_outbox-Flushed net h key c entries calm ready distinct loaded allowed read =
      let (rows, there, each) = get_outbox-rows e key c.private c.store read in
      let (c', run, flushed) =
        flush_entries-Flushed e net h key c.private ready calm rows rows entries c
          (distinct rows there) there (Permᴰ.refl rows) each in
      (c', flush_outbox-accepted net h key c entries loaded allowed read ∙ run, flushed)

  send-open :
      (write : Bytes → Outcome SessionError (Unit {0})) (s : Session) (plain key : Bytes)
      → ((p : Bytes) → write p ≡ ok tt)
      → s.sendr.key ≡ some key
      → is_aes_key key ≡ true
      → (send e.crypto write s plain).1 ≡ ok tt
  unfolding send encrypt encrypt_under with_gcm
  send-open write s plain key takes held good = rw held (rw good (takes _))

  send-key :
      (write : Bytes → Outcome SessionError (Unit {0})) (s : Session) (plain key : Bytes)
      → s.sendr.key ≡ some key
      → (send e.crypto write s plain).0.sendr.key ≡ some key
  unfolding send encrypt encrypt_under with_gcm
  send-key write s plain key held =
      ap (λ k. (encrypt_under e.crypto s k plain).0.sendr.key) held ∙ held

  session_behind-key :
      (net : Net) (h : ℕ) (entries : List OutboxSignal) (s : Session) (key : Bytes)
      → s.sendr.key ≡ some key
      → (session_behind e net h entries s).sendr.key ≡ some key
  unfolding session_behind
  session_behind-key net h [] s key held = held
  session_behind-key net h (a ∷ entries) s key held =
      session_behind-key net h entries (send e.crypto (net h) s a.signal_content).0 key
        (send-key (net h) s a.signal_content key held)

  pub Refused-open :
      (net : Net) (h : ℕ) (s : Session) (plain key : Bytes) {x : SessionError}
      → ((p : Bytes) → net h p ≡ ok tt)
      → s.sendr.key ≡ some key
      → is_aes_key key ≡ true
      → (send e.crypto (net h) s plain).1 ≡ err x
      → ⊥
  Refused-open net h s plain key takes held good why =
      cc (why, send-open (net h) s plain key takes held good)

  none_left :
      (net : Net) (h : ℕ) (s : Session) (key : Bytes) (left : List OutboxSignal)
      → ((p : Bytes) → net h p ≡ ok tt)
      → s.sendr.key ≡ some key
      → is_aes_key key ≡ true
      → Refused e net h s left
      → left ≡ []
  none_left net h s key [] takes held good refused = refl
  none_left net h s key (a ∷ left) takes held good (x, why) =
      absurd (Refused-open net h s a.signal_content key takes held good why)

  -- A connection takes every packet, and the session of the peer is accepted and has an AES key.
  -- Under the same conditions on the outbox every entry for the peer is sent, in order, and none is
  -- left in the outbox.
  pub flush_outbox-empties :
      (net : Net) (h : ℕ) (key aes : Bytes) (c : Client e) (entries : List OutboxSignal)
      → ((p : Bytes) → net h p ≡ ok tt)
      → (c.objects h).sendr.key ≡ some aes
      → is_aes_key aes ≡ true
      → Answers e
      → ((rows : List OutboxRow)
          → e.outbox.of_target c.store.queue (to_string e.hex key) ≡ some rows
          → IsQueue e rows)
      → session_of e key c ≡ some h
      → (c.objects h).stat ≡ accepted
      → get_outbox e key c.private c.store ≡ ok entries
      → (c' : Client e) × (flush_outbox e net key c ≡ (c', ok tt))
        × (c'.sent ≡ c.sent ++ sent_on e h entries)
        × (get_outbox e key c.private c'.store ≡ ok [])
  flush_outbox-empties net h key aes c entries takes keyed good ready distinct loaded allowed read =
      let (c', run, flushed) =
        flush_outbox-Flushed net h key c entries (λ p q bad. cc (takes p)) ready distinct loaded
          allowed read in
      let nothing : flushed.left ≡ [] = elim flushed.whole [
        | inl nothing ↦ nothing
        | inr refused ↦
            none_left net h (session_behind e net h flushed.done (c.objects h)) aes flushed.left
              takes (session_behind-key net h flushed.done (c.objects h) aes keyed) good refused
      ] in
      (
        c',
        run,
        flushed.log
            ∙ ap (λ l. c.sent ++ sent_on e h l)
                (sym
                  (flushed.split ∙ ap (λ l. flushed.done ++ l) nothing ∙ append-nil flushed.done)),
        left_empty c' flushed.queue nothing,
      )
    where
      left_empty :
          (c' : Client e) {left : List OutboxSignal}
          → (entries' : List OutboxSignal) × (get_outbox e key c.private c'.store ≡ ok entries')
            × Permᴰ (retried e left) entries'
          → left ≡ []
          → get_outbox e key c.private c'.store ≡ ok []
      left_empty c' (entries', again, perm) nothing =
          again ∙ ap ok (perm_nil entries' (subst (λ l. Permᴰ (retried e l) entries') nothing perm))
