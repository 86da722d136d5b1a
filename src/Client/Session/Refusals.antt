-- ===== src/Client/Session/Refusals.antt =====
-- client/session.go: what a session refuses: packets that come twice, packets behind one that was
-- lost, and everything once it is closed.
use end_to_end_chat.Base.{
  ℕ, ◌+◌, ◌%◌, ◌^◌, ◌<◌, ◌≡◌, ◌≢◌, refl, sym, ap, ◌∙◌, Bool, true, false, Bytes, List, [], ◌∷◌, map,
  Option, none, some, arith, length, take, ltb, ◌==◌, if◌then◌else◌, Bool-cases, inl, inr,
}
use end_to_end_chat.Base.Outcome.{Outcome, ok, err}
use end_to_end_chat.Wire.BigEndian.{get_be}
use end_to_end_chat.Config.{nonce_size}
use end_to_end_chat.Client.Crypto.{Crypto, is_aes_key}
use end_to_end_chat.Client.Session.Defs.{
  Session, SessionError, nonce_mismatch, no_key, data_too_short,
}
use end_to_end_chat.Client.Session.Cipher.{
  nonce_bytes, encrypt, opened, decrypt_under, decrypt, close_conn,
}
use end_to_end_chat.Client.Session.Channel.{
  packet, encrypt_all, decrypt_all, encrypt-packet, decrypt-packet, after_sending, after_receiving,
  counter-nonce_bytes,
}

-- The test of the counters.
abbrev expected : Session → Bytes → Bool
expected s input =
    get_be (take 8 (take nonce_size input)) == get_be (take 8 (nonce_bytes s.recv.nonce))

-- What a packet that is accepted has shown, and how it moves the session on.
record Accepted (s s' : Session) (input : Bytes) : Type 0 where
  long_enough : ltb (length input) nonce_size ≡ false
  in_step : expected s input ≡ true
  moved : s' ≡ after_receiving s

abbrev Answer : Type 0
Answer = Session × Outcome SessionError Bytes

err≢ok :
    (s s' : Session) (e : SessionError) (plain : Bytes) → ◌≢◌ {A = Answer} (s, err e) (s', ok plain)
err≢ok s s' e plain h = cc (ap (λ (a : Answer). a.1) h)

module _ (c : Crypto) where
  opened-moved :
      (s s' : Session) (o : Option Bytes) (plain : Bytes)
      → opened c s o ≡ (s', ok plain)
      → s' ≡ after_receiving s
  unfolding opened after_receiving
  opened-moved s s' none plain h = absurd (err≢ok _ _ _ _ h)
  opened-moved s s' (some p) plain h = sym (ap (λ (a : Answer). a.0) h)

  decrypt_under-Accepted :
      (s s' : Session) (k : Option Bytes) (input plain : Bytes)
      → ltb (length input) nonce_size ≡ false
      → decrypt_under c s k input ≡ (s', ok plain)
      → Accepted s s' input
  unfolding decrypt_under
  decrypt_under-Accepted s s' none input plain long h = absurd (err≢ok _ _ _ _ h)
  decrypt_under-Accepted s s' (some key) input plain long h = elim (Bool-cases (expected s input)) [
    | inl same ↦ elim (Bool-cases (is_aes_key key)) [
      | inl aes ↦ record {
        long_enough = long;
        in_step = same;
        moved = opened-moved s s' _ plain (rw (same, aes) at h);
      }
      | inr odd ↦ absurd (err≢ok _ _ _ _ (rw (same, odd) at h))
    ]
    | inr differ ↦ absurd (err≢ok _ _ _ _ (rw differ at h))
  ]

  decrypt-Accepted :
      (s s' : Session) (input plain : Bytes)
      → decrypt c s input ≡ (s', ok plain)
      → Accepted s s' input
  unfolding decrypt
  decrypt-Accepted s s' input plain h = elim (Bool-cases (ltb (length input) nonce_size)) [
    | inl short ↦ absurd (err≢ok _ _ _ _ (rw short at h))
    | inr long ↦ decrypt_under-Accepted s s' s.recv.key input plain long (rw long at h)
  ]

  -- A packet that does not carry the expected counter is refused, and changes nothing.
  decrypt-mismatch :
      (s : Session) (input key : Bytes)
      → s.recv.key ≡ some key
      → ltb (length input) nonce_size ≡ false
      → expected s input ≡ false
      → decrypt c s input ≡ (s, err nonce_mismatch)
  unfolding decrypt
  decrypt-mismatch s input key e long differ =
      rw long (ap (λ (k : Option Bytes). decrypt_under c s k input) e ∙ rw differ refl)

  decrypt_under-key :
      (s s' : Session) (k : Option Bytes) (input plain : Bytes)
      → decrypt_under c s k input ≡ (s', ok plain)
      → (key : Bytes) × (k ≡ some key)
  unfolding decrypt_under
  decrypt_under-key s s' none input plain h = absurd (err≢ok _ _ _ _ h)
  decrypt_under-key s s' (some key) input plain h = (key, refl)

  decrypt-key :
      (s s' : Session) (input plain : Bytes)
      → ltb (length input) nonce_size ≡ false
      → decrypt c s input ≡ (s', ok plain)
      → (key : Bytes) × (s.recv.key ≡ some key)
  unfolding decrypt
  decrypt-key s s' input plain long h = decrypt_under-key s s' s.recv.key input plain (rw long at h)

  -- A packet that a session has accepted is refused when it comes again, and changes nothing.
  pub decrypt_twice :
      (s s' : Session) (input plain : Bytes)
      → s.recv.nonce < 2 ^ 64
      → decrypt c s input ≡ (s', ok plain)
      → decrypt c s' input ≡ (s', err nonce_mismatch)
  unfolding after_receiving
  decrypt_twice s s' input plain bounded h =
      let a = decrypt-Accepted s s' input plain h in
      let (key, e) = decrypt-key s s' input plain a.long_enough h in
      rw a.moved (
        decrypt-mismatch (after_receiving s) input key e a.long_enough
          (stale s.recv.nonce (get_be (take 8 (take nonce_size input))) bounded a.in_step))
    where
      stale :
          (n x : ℕ)
          → n < 2 ^ 64
          → (x == get_be (take 8 (nonce_bytes n))) ≡ true
          → (x == get_be (take 8 (nonce_bytes ((n + 1) % 2 ^ 64)))) ≡ false
      stale n x h same =
          ground
            (arith, counter-nonce_bytes n h, counter-nonce_bytes ((n + 1) % 2 ^ 64) (omega arith))

  same_session :
      (s s' : Session) (r r' : Outcome SessionError Bytes)
      → ◌≡◌ {A = Answer} (s, r) (s', r')
      → s' ≡ s
  same_session s s' r r' h = sym (ap (λ (a : Answer). a.0) h)

  opened-refused :
      (s s' : Session) (o : Option Bytes) (e : SessionError) → opened c s o ≡ (s', err e) → s' ≡ s
  unfolding opened
  opened-refused s s' none e h = same_session _ _ _ _ h
  opened-refused s s' (some p) e h = absurd (err≢ok _ _ _ _ (sym h))

  decrypt_under-refused :
      (s s' : Session) (k : Option Bytes) (input : Bytes) (e : SessionError)
      → decrypt_under c s k input ≡ (s', err e)
      → s' ≡ s
  unfolding decrypt_under
  decrypt_under-refused s s' none input e h = same_session _ _ _ _ h
  decrypt_under-refused s s' (some key) input e h = elim (Bool-cases (expected s input)) [
    | inl same ↦ elim (Bool-cases (is_aes_key key)) [
      | inl aes ↦ opened-refused s s' _ e (rw (same, aes) at h)
      | inr odd ↦ same_session _ _ _ _ (rw (same, odd) at h)
    ]
    | inr differ ↦ same_session _ _ _ _ (rw differ at h)
  ]

  -- A session that refuses a packet is left as it was.
  pub decrypt_refused :
      (s s' : Session) (input : Bytes) (e : SessionError) → decrypt c s input ≡ (s', err e) → s' ≡ s
  unfolding decrypt
  decrypt_refused s s' input e h = elim (Bool-cases (ltb (length input) nonce_size)) [
    | inl short ↦ same_session _ _ _ _ (rw short at h)
    | inr long ↦ decrypt_under-refused s s' s.recv.key input e (rw long at h)
  ]

  refuse_ahead :
      (b : Session) (key : Bytes) (n : ℕ) (plain : Bytes)
      → b.recv.key ≡ some key
      → is_aes_key key ≡ true
      → b.recv.nonce < n
      → n < 2 ^ 64
      → decrypt c b (packet c key n plain) ≡ (b, err nonce_mismatch)
  refuse_ahead b key n plain e aes behind bounded =
      decrypt-packet c b key plain n e aes bounded (omega arith)
      ∙ rw (differ n b.recv.nonce behind) refl
    where
      differ : (n m : ℕ) → m < n → (n == m) ≡ false
      differ n m h = ground arith

  -- Once a packet has been lost, or has not been written, the counter of the sender is ahead; then
  -- the receiver refuses every packet that follows, until that counter wraps.
  pub decrypt_all-lost :
      (plains : List Bytes) (a b : Session) (key : Bytes)
      → a.sendr.key ≡ some key
      → b.recv.key ≡ some key
      → is_aes_key key ≡ true
      → b.recv.nonce < a.sendr.nonce
      → a.sendr.nonce + length plains < 2 ^ 64
      → (packets : List Bytes) × ((encrypt_all c a plains).1 ≡ ok packets)
        × (decrypt_all c b packets ≡ (b, map (λ _. err nonce_mismatch) plains))
  unfolding encrypt_all decrypt_all after_sending
  decrypt_all-lost [] a b key ea eb aes behind room = ([], refl, refl)
  decrypt_all-lost (plain ∷ plains) a b key ea eb aes behind room =
      let next : a.sendr.nonce + 1 ≡ (a.sendr.nonce + 1) % 2 ^ 64 = omega arith in
      let (packets, e, d) =
        decrypt_all-lost plains (after_sending a) b key ea eb aes (omega arith) (omega arith) in
      (
        packet c key a.sendr.nonce plain ∷ packets,
        rw (encrypt-packet c a key plain ea aes, e) refl,
        rw (refuse_ahead b key a.sendr.nonce plain eb aes behind (omega arith), d) refl,
      )

  -- A closed session sends nothing and accepts nothing.
  pub close_conn-refuses :
      (s : Session) (plain input : Bytes)
      → ((encrypt c (close_conn s) plain).1 ≡ err no_key)
        × ((decrypt c (close_conn s) input).1
            ≡ (if ltb (length input) nonce_size then err data_too_short else err no_key))
  unfolding encrypt decrypt close_conn
  close_conn-refuses s plain input = (refl, ground arith)
