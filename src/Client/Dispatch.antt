-- ===== src/Client/Dispatch.antt =====
-- client/client.go: `handleDecrypted`, and client/handlers.go: a turn of `readLoop`.
use end_to_end_chat.Base.{ℕ, Bytes, [], ◌∷◌, Bool, true, false, ◌||◌, ◌==◌, if◌then◌else◌, bytes_eq}
use end_to_end_chat.Base.Outcome.{Outcome, err, map_err}
use end_to_end_chat.Base.Op.{return, lift, modify}
use end_to_end_chat.Signal.Defs.{
  SignalType, Signal, marker, message, delete, update, file_meta, key_exchange, info_request,
  info_response, info_changed, peer_accepted,
}
use end_to_end_chat.Signal.Parse.{parse}
use end_to_end_chat.Store.Defs.{Draws, Env}
use end_to_end_chat.Store.Peers.{accepted}
use end_to_end_chat.Client.RateLimit.{MsgLimiter, allow}
use end_to_end_chat.Client.Session.Defs.{Session, SessionError}
use end_to_end_chat.Client.Session.Cipher.{decrypt}
use end_to_end_chat.Client.State.{
  ◌>>=◌, ◌>>◌, Handler, Net, set_object, bad_signal, session_failed, unexpected_type,
  rate_limit_exceeded,
}
use end_to_end_chat.Client.Files.{handle_file_chunk}
use end_to_end_chat.Client.Signals.{handle_signal}

-- The signals that a peer may send before it is accepted.
abbrev pub is_open : SignalType → Bool
is_open t =
    bytes_eq t info_request
    || bytes_eq t info_response
    || bytes_eq t info_changed
    || bytes_eq t peer_accepted

-- The signals that are refused with a warning before that; any other type is passed over.
abbrev pub is_guarded : SignalType → Bool
is_guarded t =
    bytes_eq t message
    || bytes_eq t delete
    || bytes_eq t update
    || bytes_eq t file_meta
    || bytes_eq t key_exchange

module _ (e : Env) where
  unfoldable pub limited : ℕ → MsgLimiter × Bool → Handler e (Unit {0})
  limited h (limiter, true) =
      modify λ c. set_object e h (record (c.objects h) { msg_limiter = limiter }) c
  limited h (limiter, false) = do
    modify λ c. set_object e h (record (c.objects h) { msg_limiter = limiter }) c
    lift (err rate_limit_exceeded)

  -- `if !sess.msgLimiter.Allow() { return }`
  unfoldable pub check_rate : ℕ → ℕ → Handler e (Unit {0})
  unfolding limited
  check_rate now h c = (do r ← lift (allow (c.objects h).msg_limiter now); limited h r) c

  unfoldable pub handle_from_stranger : Net → Draws → Signal → Bytes → Handler e (Unit {0})
  handle_from_stranger net d sig key =
      if is_open sig.typ
      then handle_signal e net d sig key
      else if is_guarded sig.typ
      then lift (err unexpected_type)
      else return tt

  -- A signal, by the status of the session.
  unfoldable pub handle_envelope : Net → Draws → Signal → ℕ → Bytes → Handler e (Unit {0})
  unfolding handle_from_stranger check_rate
  handle_envelope net d sig h key c =
      if bytes_eq (c.objects h).stat accepted
      then ((check_rate d.now h >> handle_signal e net d sig key) c)
      else handle_from_stranger net d sig key c

  -- `h` is the session from which the plaintext comes, `key` its peer.
  unfoldable pub handle_decrypted : Net → Draws → Bytes → ℕ → Bytes → Handler e (Unit {0})
  unfolding handle_envelope
  handle_decrypted net d [] h key = return tt
  handle_decrypted net d (first ∷ rest) h key =
      if first == marker
      then (do
        sig ← lift (map_err bad_signal (parse (first ∷ rest)))
        handle_envelope net d sig h key)
      else handle_file_chunk e d rest

  unfoldable pub decrypted_by : Session × Outcome SessionError Bytes → ℕ → Handler e Bytes
  decrypted_by (s, r) h c = (set_object e h s c, map_err session_failed r)

  -- A turn of `readLoop`, at a packet that the connection delivers.
  unfoldable pub receive : Net → Draws → Bytes → ℕ → Bytes → Handler e (Unit {0})
  unfolding decrypted_by handle_decrypted
  receive net d packet h key = do
    plain ← (λ c. decrypted_by (decrypt e.crypto (c.objects h) packet) h c)
    handle_decrypted net d plain h key
