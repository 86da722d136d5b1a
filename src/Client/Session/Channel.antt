-- ===== src/Client/Session/Channel.antt =====
-- client/session.go: what a pair of sessions with matching keys delivers, and what it refuses.
use end_to_end_chat.Base.{
  ℕ, ◌+◌, ◌%◌, ◌^◌, ◌<◌, ◌≡◌, refl, ap, ◌∙◌, true, false, Bytes, List, [], ◌∷◌, ◌++◌, map, Option,
  some, arith, length, take, drop, ltb, ◌==◌, replicate, length-append, take-append_at,
  drop-append_at, if◌then◌else◌,
}
use end_to_end_chat.Base.Outcome.{Outcome, ok, err, ◌>>=◌}
use end_to_end_chat.Wire.BigEndian.{put_be, get_be, length-put_be, get_be-put_be}
use end_to_end_chat.Config.{nonce_size}
use end_to_end_chat.Client.Crypto.{Crypto, is_aes_key}
use end_to_end_chat.Client.Session.Defs.{Session, SessionError, nonce_mismatch}
use end_to_end_chat.Client.Session.Cipher.{
  next_nonce, nonce_bytes, encrypt, encrypt_under, decrypt_under, decrypt,
}

length-nonce_bytes : (n : ℕ) → length (nonce_bytes n) ≡ nonce_size
unfolding nonce_bytes
length-nonce_bytes n = rw (length-append (put_be 8 n) (replicate 4 0), length-put_be 8 n) refl

-- The counter that a nonce carries.
pub counter-nonce_bytes : (n : ℕ) → n < 2 ^ 64 → get_be (take 8 (nonce_bytes n)) ≡ n
unfolding nonce_bytes
counter-nonce_bytes n h =
    rw (take-append_at 8 (put_be 8 n) (replicate 4 0) (length-put_be 8 n)) (get_be-put_be 8 n h)

-- `a` sends to `b`: they hold the same key, and their counters are in step.
pub record Linked (a b : Session) (n : ℕ) : Type 0 where
  pub key : Bytes
  pub sends : a.sendr.key ≡ some key
  pub receives : b.recv.key ≡ some key
  pub aes : is_aes_key key ≡ true
  pub sent : a.sendr.nonce ≡ n
  pub received : b.recv.nonce ≡ n
  pub bounded : n < 2 ^ 64

unfoldable pub after_sending : Session → Session
after_sending a = record a { sendr = next_nonce a.sendr }

unfoldable pub after_receiving : Session → Session
after_receiving b = record b { recv = next_nonce b.recv }

Linked-next :
    (a b : Session) (n : ℕ)
    → Linked a b n
    → Linked (after_sending a) (after_receiving b) ((n + 1) % 2 ^ 64)
unfolding after_sending after_receiving
Linked-next a b n l = record {
  key = l.key;
  sends = l.sends;
  receives = l.receives;
  aes = l.aes;
  sent = ap (λ (k : ℕ). (k + 1) % 2 ^ 64) l.sent;
  received = ap (λ (k : ℕ). (k + 1) % 2 ^ 64) l.received;
  bounded = omega arith;
}

same_counter : (n m : ℕ) → m ≡ n → (n == m) ≡ true
same_counter n m e = ground arith

module _ (c : Crypto) where
  abbrev pub packet : Bytes → ℕ → Bytes → Bytes
  packet key n plain = nonce_bytes n ++ c.seal key (nonce_bytes n) plain

  pub encrypt-packet :
      (a : Session) (key plain : Bytes)
      → a.sendr.key ≡ some key
      → is_aes_key key ≡ true
      → encrypt c a plain
        ≡ (record a { sendr = next_nonce a.sendr }, ok (packet key a.sendr.nonce plain))
  unfolding encrypt
  encrypt-packet a key plain e aes =
      ap (λ (k : Option Bytes). encrypt_under c a k plain) e ∙ rw aes refl

  length-packet :
      (key : Bytes) (n : ℕ) (plain : Bytes) → ltb (length (packet key n plain)) nonce_size ≡ false
  length-packet key n plain =
      rw (length-append (nonce_bytes n) (c.seal key (nonce_bytes n) plain), length-nonce_bytes n)
        (ground arith)

  take-packet :
      (key : Bytes) (n : ℕ) (plain : Bytes) → take nonce_size (packet key n plain) ≡ nonce_bytes n
  take-packet key n plain = take-append_at nonce_size _ _ (length-nonce_bytes n)

  drop-packet :
      (key : Bytes) (n : ℕ) (plain : Bytes)
      → drop nonce_size (packet key n plain) ≡ c.seal key (nonce_bytes n) plain
  drop-packet key n plain = drop-append_at nonce_size _ _ (length-nonce_bytes n)

  -- A packet with the counter `n`, at a session that expects `m`.
  pub decrypt-packet :
      (b : Session) (key plain : Bytes) (n : ℕ)
      → b.recv.key ≡ some key
      → is_aes_key key ≡ true
      → n < 2 ^ 64
      → b.recv.nonce < 2 ^ 64
      → decrypt c b (packet key n plain) ≡ (
          if n == b.recv.nonce
          then (record b { recv = next_nonce b.recv }, ok plain)
          else (b, err nonce_mismatch))
  unfolding decrypt
  decrypt-packet b key plain n e aes hn hm = rw (length-packet key n plain) (
      ap (λ (k : Option Bytes). decrypt_under c b k (packet key n plain)) e
      ∙ rw
          (
            aes,
            take-packet key n plain,
            drop-packet key n plain,
            counter-nonce_bytes n hn,
            counter-nonce_bytes b.recv.nonce hm,
            c.unseal-seal key (nonce_bytes n) plain,
          )
          refl)

  -- Messages sent one after the other, and packets received one after the other: the read loop
  -- goes on after a packet that is refused.
  unfoldable pub encrypt_all : Session → List Bytes → Session × Outcome SessionError (List Bytes)
  encrypt_all a [] = (a, ok [])
  encrypt_all a (plain ∷ plains) =
      let (a', r) = encrypt c a plain in
      let (a'', rest) = encrypt_all a' plains in (a'', do p ← r; ps ← rest; ok (p ∷ ps))

  unfoldable pub decrypt_all : Session → List Bytes → Session × List (Outcome SessionError Bytes)
  decrypt_all b [] = (b, [])
  decrypt_all b (input ∷ inputs) =
      let (b', r) = decrypt c b input in let (b'', rest) = decrypt_all b' inputs in (b'', r ∷ rest)

  pub encrypt-Linked :
      (a b : Session) (n : ℕ) (plain : Bytes) (l : Linked a b n)
      → encrypt c a plain ≡ (after_sending a, ok (packet l.key n plain))
  unfolding after_sending
  encrypt-Linked a b n plain l =
      encrypt-packet a l.key plain l.sends l.aes
      ∙ ap (λ (k : ℕ). (record a { sendr = next_nonce a.sendr }, ok (packet l.key k plain))) l.sent

  pub decrypt-Linked :
      (a b : Session) (n : ℕ) (plain : Bytes) (l : Linked a b n)
      → decrypt c b (packet l.key n plain) ≡ (after_receiving b, ok plain)
  unfolding after_receiving
  decrypt-Linked a b n plain l =
      decrypt-packet b l.key plain n l.receives l.aes l.bounded
        (omega (arith, l.received, l.bounded))
      ∙ rw (same_counter n b.recv.nonce l.received) refl

  -- Between linked sessions, every message is encrypted, and the packets, received in the order in
  -- which they were sent, give back the messages.
  pub decrypt_all-encrypt_all :
      (plains : List Bytes) (a b : Session) (n : ℕ)
      → Linked a b n
      → (packets : List Bytes) × ((encrypt_all a plains).1 ≡ ok packets)
        × ((decrypt_all b packets).1 ≡ map ok plains)
  unfolding encrypt_all decrypt_all
  decrypt_all-encrypt_all [] a b n l = ([], refl, refl)
  decrypt_all-encrypt_all (plain ∷ plains) a b n l =
      let (packets, e, d) =
        decrypt_all-encrypt_all plains (after_sending a) (after_receiving b) _
          (Linked-next a b n l) in
      (
        packet l.key n plain ∷ packets,
        rw (encrypt-Linked a b n plain l, e) refl,
        rw (decrypt-Linked a b n plain l, d) refl,
      )
