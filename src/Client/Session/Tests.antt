-- ===== src/Client/Session/Tests.antt =====
-- client/session.go with a toy cryptography: a cipher that does not hide, one shared secret for
-- all, and signatures that are always valid.
use end_to_end_chat.Base.{
  ℕ, ◌<◌, ◌≡◌, ◌≢◌, refl, ap, true, false, Bytes, List, ◌∷◌, [], ◌++◌, map, some, arith, replicate,
}
use end_to_end_chat.Base.Outcome.{ok, err}
use end_to_end_chat.Wire.BigEndian.{put_be, get_be}
use end_to_end_chat.Signal.Defs.{ascii}
use end_to_end_chat.Client.Crypto.Sample.{pad, toy}
use end_to_end_chat.Client.Session.Defs.{Session, nonce_mismatch, data_too_short, new_session}
use end_to_end_chat.Client.Session.Cipher.{nonce_bytes, decrypt}
use end_to_end_chat.Client.Session.Handshake.{handshake, key_exchange_payload}
use end_to_end_chat.Client.Session.Channel.{
  Linked, encrypt_all, decrypt_all, decrypt_all-encrypt_all,
}
use end_to_end_chat.Client.Session.Refusals.{decrypt_twice, decrypt_all-lost}
use end_to_end_chat.Client.Session.Agreement.{IsReady, handshake-Linked}
use end_to_end_chat.Client.Session.Authentic.{IsAuthentic, handshake-IsAuthentic}

abbrev key : Bytes
key = replicate 32 5

abbrev alice : Session
alice = new_session (ascii "alice") (replicate 32 1) (replicate 32 1) 100 60 0

abbrev bob : Session
bob = new_session (ascii "bob") (replicate 32 2) (replicate 32 2) 100 60 0

-- `alice` sends to `bob`.
abbrev sender : Session
sender = record alice { sendr = record { key = some key; nonce = 0 } }

abbrev receiver : Session
receiver = record bob { recv = record { key = some key; nonce = 0 } }

decrypt_all-encrypt_all_example :
    (packets : List Bytes) × ((encrypt_all toy sender (ascii "hi" ∷ ascii "there" ∷ [])).1
      ≡ ok packets)
    × ((decrypt_all toy receiver packets).1 ≡ map ok (ascii "hi" ∷ ascii "there" ∷ []))
decrypt_all-encrypt_all_example =
    decrypt_all-encrypt_all toy (ascii "hi" ∷ ascii "there" ∷ []) sender receiver 0 (record {
      key = key;
      sends = refl;
      receives = refl;
      aes = refl;
      sent = refl;
      received = refl;
      bounded = omega arith;
    })

abbrev first_packet : Bytes
first_packet = replicate 12 0 ++ ascii "hi"

first_accepted :
    decrypt toy receiver first_packet
    ≡ (record receiver { recv = record { key = some key; nonce = 1 } }, ok (ascii "hi"))
unfolding decrypt get_be put_be nonce_bytes
first_accepted = refl

decrypt_twice_example :
    decrypt toy (record receiver { recv = record { key = some key; nonce = 1 } }) first_packet
    ≡ (record receiver { recv = record { key = some key; nonce = 1 } }, err nonce_mismatch)
decrypt_twice_example =
    decrypt_twice toy receiver (record receiver { recv = record { key = some key; nonce = 1 } })
      first_packet (ascii "hi") (omega arith) first_accepted

short_refused : decrypt toy receiver (ascii "hi") ≡ (receiver, err data_too_short)
unfolding decrypt
short_refused = refl

-- Two packets of `alice` have been lost.
abbrev ahead : Session
ahead = record alice { sendr = record { key = some key; nonce = 2 } }

decrypt_all-lost_example :
    (packets : List Bytes) × ((encrypt_all toy ahead (ascii "hi" ∷ [])).1 ≡ ok packets)
    × (decrypt_all toy receiver packets
        ≡ (receiver, map (λ _. err nonce_mismatch) (ascii "hi" ∷ [])))
decrypt_all-lost_example =
    decrypt_all-lost toy (ascii "hi" ∷ []) ahead receiver key refl refl refl (omega arith)
      (omega arith)

abbrev first_byte : Bytes → ℕ
first_byte [] = 0
first_byte (x ∷ xs) = x

first_byte-lt : (xs ys : Bytes) → first_byte xs < first_byte ys → xs ≢ ys
first_byte-lt xs ys h e = omega (arith, h, ap first_byte e)

first_byte-gt : (xs ys : Bytes) → first_byte ys < first_byte xs → xs ≢ ys
first_byte-gt xs ys h e = omega (arith, h, ap first_byte e)

alice-IsReady : IsReady toy alice
unfolding new_session
alice-IsReady = record {
  own_key = refl;
  not_nil = first_byte-gt _ _ (omega arith);
  name_fits = omega arith;
}

bob-IsReady : IsReady toy bob
unfolding new_session
bob-IsReady = record {
  own_key = refl;
  not_nil = first_byte-gt _ _ (omega arith);
  name_fits = omega arith;
}

alice≢bob : alice.our_static ≢ bob.our_static
unfolding new_session
alice≢bob = first_byte-lt _ _ (omega arith)

handshake-Linked_example :
    (a_wire b_wire : Bytes) × (a' b' : Session) × (key_exchange_payload alice
        (pad 32 (4 ∷ []))
        (replicate 64 0)
      ≡ ok a_wire)
    × (key_exchange_payload bob (pad 32 (6 ∷ [])) (replicate 64 0) ≡ ok b_wire)
    × (handshake toy (λ _. ok tt) (ok b_wire) alice true (4 ∷ []) ≡ ok a')
    × (handshake toy (λ _. ok tt) (ok a_wire) bob false (6 ∷ []) ≡ ok b')
    × (a'.peer.static_pub_key ≡ bob.our_static)
    × (b'.peer.static_pub_key ≡ alice.our_static)
    × (a'.peer.name ≡ ascii "bob")
    × (b'.peer.name ≡ ascii "alice")
    × Linked a' b' 0
    × Linked b' a' 0
unfolding new_session
handshake-Linked_example =
    handshake-Linked toy alice bob (4 ∷ []) (6 ∷ []) (replicate 32 9) (λ _. ok tt) (λ _. ok tt)
      alice-IsReady bob-IsReady alice≢bob refl

-- What `bob` sends to `alice`, and the session that `alice` has then.
met :
    (wire : Bytes) × (alice' : Session) × (handshake toy (λ _. ok tt) (ok wire) alice true (4 ∷ [])
      ≡ ok alice')
met =
    let (_, wire, alice', _, _, _, h, _, _, _, _, _, _, _) =
      handshake-Linked toy alice bob (4 ∷ []) (6 ∷ []) (replicate 32 9) (λ _. ok tt) (λ _. ok tt)
        alice-IsReady bob-IsReady alice≢bob refl in
    (wire, alice', h)

handshake-IsAuthentic_example : IsAuthentic toy alice.our_static met.1
handshake-IsAuthentic_example =
    handshake-IsAuthentic toy (λ _. ok tt) (ok met.0) alice met.1 true (4 ∷ []) met.2
