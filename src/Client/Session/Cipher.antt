-- ===== src/Client/Session/Cipher.antt =====
-- client/session.go: `encrypt`, `decrypt`, `send` and `closeConn`. Each returns the new state of
-- the session with its result, since some of them change the state before they fail.
use end_to_end_chat.Base.{
  ℕ, ◌+◌, ◌%◌, ◌^◌, Bytes, ◌++◌, Option, none, some, length, take, drop, ltb, ◌==◌, replicate,
  if◌then◌else◌,
}
use end_to_end_chat.Base.Outcome.{Outcome, ok, err, ◌>>=◌}
use end_to_end_chat.Wire.BigEndian.{put_be, get_be}
use end_to_end_chat.Config.{nonce_size}
use end_to_end_chat.Client.Crypto.{Crypto, is_aes_key}
use end_to_end_chat.Client.Session.Defs.{
  Session, CipherState, SessionError, no_key, new_cipher, data_too_short, nonce_mismatch,
  open_failed,
}

-- `uint64` addition wraps.
abbrev pub next_nonce : CipherState → CipherState
next_nonce s = record s { nonce = (s.nonce + 1) % 2 ^ 64 }

-- 8 bytes of counter and 4 of zeros.
unfoldable pub nonce_bytes : ℕ → Bytes
nonce_bytes n = put_be 8 n ++ replicate 4 0

module _ (c : Crypto) where
  -- `aesGCM(key)`, and what is done with the cipher.
  unfoldable pub with_gcm : {A : Type 0} → Bytes → Outcome SessionError A → Outcome SessionError A
  with_gcm key r = if is_aes_key key then r else err new_cipher

  -- `encrypt`, by the key that the session holds.
  unfoldable pub encrypt_under :
      Session → Option Bytes → Bytes → Session × Outcome SessionError Bytes
  unfolding nonce_bytes with_gcm
  encrypt_under s none plain = (s, err no_key)
  encrypt_under s (some key) plain =
      let nonce = nonce_bytes s.sendr.nonce in
      (record s { sendr = next_nonce s.sendr }, with_gcm key (ok (nonce ++ c.seal key nonce plain)))

  unfoldable pub encrypt : Session → Bytes → Session × Outcome SessionError Bytes
  unfolding encrypt_under
  encrypt s plain = encrypt_under s s.sendr.key plain

  -- The outcome of `gcm.Open`; the counter moves on only if it succeeds.
  unfoldable pub opened : Session → Option Bytes → Session × Outcome SessionError Bytes
  opened s none = (s, err open_failed)
  opened s (some plain) = (record s { recv = next_nonce s.recv }, ok plain)

  -- `decrypt` of a packet that is long enough, by the key that the session holds.
  unfoldable pub decrypt_under :
      Session → Option Bytes → Bytes → Session × Outcome SessionError Bytes
  unfolding opened
  decrypt_under s none input = (s, err no_key)
  decrypt_under s (some key) input =
      let nonce = take nonce_size input in
      if get_be (take 8 nonce) == get_be (take 8 (nonce_bytes s.recv.nonce))
      then (if is_aes_key key
          then opened s (c.unseal key nonce (drop nonce_size input))
          else (s, err new_cipher))
      else (s, err nonce_mismatch)

  unfoldable pub decrypt : Session → Bytes → Session × Outcome SessionError Bytes
  unfolding decrypt_under
  decrypt s input =
      if ltb (length input) nonce_size
      then (s, err data_too_short)
      else decrypt_under s s.recv.key input

  -- `write` is what the connection does: its deadline, its state and `WriteMessage`.
  unfoldable pub send :
      (Bytes → Outcome SessionError (Unit {0}))
      → Session
      → Bytes
      → Session × Outcome SessionError (Unit {0})
  send write s plain = let (s', r) = encrypt s plain in (s', r >>= write)

-- `closeConn` wipes the keys; then nothing can be sent or received.
unfoldable pub close_conn : Session → Session
close_conn s = record s {
  sendr = record (s.sendr) { key = none };
  recv = record (s.recv) { key = none };
}
