-- ===== src/Client/Sends.antt =====
-- client/client.go and client/session.go: sending on a session either writes or fails.
use end_to_end_chat.Base.{
  ℕ, ◌≡◌, ◌≢◌, refl, sym, ap, ◌∙◌, Bytes, [], ◌∷◌, ◌++◌, Option, Option-cases, Bool-cases, inl, inr,
  ◌⊎◌, arith, Bool, true, if◌then◌else◌, ◌==◌,
}
use end_to_end_chat.Base.Outcome.{Outcome, ok, err, panic, Panic}
use end_to_end_chat.Store.Defs.{Env}
use end_to_end_chat.Client.Crypto.{is_aes_key}
use end_to_end_chat.Client.Session.Defs.{Session, SessionError, no_key, new_cipher}
use end_to_end_chat.Client.Session.Cipher.{
  nonce_bytes, encrypt, encrypt_under, with_gcm, send, next_nonce,
}
use end_to_end_chat.Client.State.{Client, Net, send_to, set_object, session_failed}

module _ (e : Env) where
  pub encrypt-cases :
      (s : Session) (plain : Bytes)
      → ((s' : Session) × (p : Bytes) × (encrypt e.crypto s plain ≡ (s', ok p))
          × (s'.sendr.key ≡ s.sendr.key))
        ⊎ ((s' : Session) × (x : SessionError) × (encrypt e.crypto s plain ≡ (s', err x)))
  unfolding encrypt encrypt_under with_gcm
  encrypt-cases s plain = elim (Option-cases s.sendr.key) [
    | inl missing ↦ inr (s, no_key, rw missing refl)
    | inr (key, there) ↦
        let s' : Session = record s { sendr = next_nonce s.sendr } in
        elim (Bool-cases (is_aes_key key)) [
          | inl good ↦ inl (
            s',
            nonce_bytes s.sendr.nonce ++ e.crypto.seal key (nonce_bytes s.sendr.nonce) plain,
            ap (λ (k : Option Bytes). encrypt_under e.crypto s k plain) there ∙ rw good refl,
            refl,
          )
          | inr bad ↦ inr (
            s',
            new_cipher,
            ap (λ (k : Option Bytes). encrypt_under e.crypto s k plain) there ∙ rw bad refl,
          )
        ]
  ]

  send-cases :
      (write : Bytes → Outcome SessionError (Unit {0})) (s : Session) (plain : Bytes)
      → ((p : Bytes) (q : Panic) → write p ≢ panic q)
      → ((s' : Session) × (send e.crypto write s plain ≡ (s', ok tt))
          × (s'.sendr.key ≡ s.sendr.key))
        ⊎ ((s' : Session) × (x : SessionError) × (send e.crypto write s plain ≡ (s', err x)))
  unfolding send
  send-cases write s plain calm = elim (encrypt-cases s plain) [
    | inl (s', p, sealed, same) ↦ written s' p sealed same (write p) refl
    | inr (s', x, failed) ↦ inr (s', x, rw failed refl)
  ]
    where
      written :
          (s' : Session) (p : Bytes)
          → encrypt e.crypto s plain ≡ (s', ok p)
          → s'.sendr.key ≡ s.sendr.key
          → (r : Outcome SessionError (Unit {0})) → write p ≡ r
          → ((s' : Session) × (send e.crypto write s plain ≡ (s', ok tt))
              × (s'.sendr.key ≡ s.sendr.key))
            ⊎ ((s' : Session) × (x : SessionError) × (send e.crypto write s plain ≡ (s', err x)))
      written s' p sealed same (ok tt) q = inl (s', rw (sealed, q) refl, same)
      written s' p sealed same (err x) q = inr (s', x, rw (sealed, q) refl)
      written s' p sealed same (panic z) q = absurd (calm p z q)

  -- Sending on a session writes, or fails; the store does not change.
  pub send_to-cases :
      (net : Net) (h : ℕ) (plain : Bytes) (c : Client e)
      → ((p : Bytes) (q : Panic) → net h p ≢ panic q)
      → ((c' : Client e) × (send_to e net h plain c ≡ (c', ok tt))
          × (c'.sent ≡ c.sent ++ (h, plain) ∷ [])
          × (c'.store ≡ c.store)
          × (c'.objects h ≡ (send e.crypto (net h) (c.objects h) plain).0))
        ⊎ ((c' : Client e) × (x : SessionError) × (send_to e net h plain c
              ≡ (c', err (session_failed x)))
            × (c'.sent ≡ c.sent)
            × (c'.store ≡ c.store)
            × ((send e.crypto (net h) (c.objects h) plain).1 ≡ err x))
  unfolding send_to set_object
  send_to-cases net h plain c calm = elim (send-cases (net h) (c.objects h) plain calm) [
    | inl (s', sent, same) ↦ inl (
      record (set_object e h s' c) { sent = c.sent ++ (h, plain) ∷ [] },
      rw sent refl,
      refl,
      refl,
      ap (λ (b : Bool). if b then s' else c.objects h) (own h) ∙ sym (ap (λ p. p.0) sent),
    )
    | inr (s', x, failed) ↦
        inr (set_object e h s' c, x, rw failed refl, refl, refl, ap (λ p. p.1) failed)
  ]
    where
      own : (n : ℕ) → (n == n) ≡ true
      own n = ground arith
