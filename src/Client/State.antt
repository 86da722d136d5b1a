-- ===== src/Client/State.antt =====
-- client/client.go: the state of the client. The sessions are objects that the table of sessions
-- and the loops that read from a connection share; an object is named by a number.
use end_to_end_chat.Base.{ℕ, Bytes, List, ◌==◌, if◌then◌else◌, ◌++◌, [], ◌∷◌, Option}
use end_to_end_chat.Base.Dict.{Dict, lookup}
use end_to_end_chat.Base.Outcome.{Outcome, ok, err, panic, map_err}
use end_to_end_chat.Base.Op.{Op, after}
use end_to_end_chat.Signal.Defs
use end_to_end_chat.Store.Defs.{Env, Store, StoreError}
use end_to_end_chat.Message.Defs.{DecodeError}
use end_to_end_chat.Message.Repository.{RepositoryError}
use end_to_end_chat.Client.Codec.FileMeta.{FileMeta, FileMetaError}
use end_to_end_chat.Client.Codec.InfoResponse.{InfoResponseError}
use end_to_end_chat.Client.Session.Defs.{Session, SessionError}
use end_to_end_chat.Client.Session.Cipher.{send}

-- `buf` holds what has arrived of the file.
pub record PendingFile : Type 0 where
  pub meta : FileMeta
  pub received : ℕ
  pub buf : Bytes

-- `sent` is the record of what was given to `send` of a session without an error; the code does not
-- keep it.
pub record Client (e : Env) : Type 0 where
  pub public : Bytes
  pub private : Bytes
  pub rate_limit : ℕ
  pub rate_window : ℕ
  pub store : Store e
  pub objects : ℕ → Session
  pub next_object : ℕ
  pub sessions : Dict ℕ
  pub pending_files : Dict PendingFile
  pub sent : List (ℕ × Bytes)

-- Why a handler ends early; the code logs it, or gives it to the caller.
pub data Warning : Type 0 where
  key_mismatch not_author unexpected_type rate_limit_exceeded : Warning
  no_session session_exists chunk_too_short unknown_transfer : Warning
  bad_message : DecodeError → Warning
  bad_file_meta : FileMetaError → Warning
  bad_info_response : InfoResponseError → Warning
  bad_signal : Defs.Error → Warning
  repository_failed : RepositoryError → Warning
  store_failed : StoreError → Warning
  session_failed : SessionError → Warning

-- What the connection of a session does with a packet.
abbrev pub Net : Type 0
Net = ℕ → Bytes → Outcome SessionError (Unit {0})

module _ (e : Env) where
  -- A part of the handlers: it reads and changes the client.
  abbrev pub Handler : Type 0 → Type 0
  Handler A = Op (Client e) Warning A

  -- One part behind the other; it runs where the first did not end early.
  unfoldable pub then_do : {A B : Type 0} → Handler A → (A → Handler B) → Handler B
  then_do m f c = after (m c) f

  -- An operation on the store, with the error that the client makes of its error.
  unfoldable pub on_store :
      {E A : Type 0} → (E → Warning) → (Client e → Op (Store e) E A) → Handler A
  on_store wrap m c = let (s, r) = m c c.store in (record c { store = s }, map_err wrap r)

  abbrev pub gets : {A : Type 0} → (Client e → A) → Handler A
  gets f = λ c. (c, ok (f c))

  abbrev pub reads : {E A : Type 0} → (E → Warning) → (Client e → Outcome E A) → Handler A
  reads wrap f = λ c. (c, map_err wrap (f c))

  -- A change of the object that a session is.
  unfoldable pub set_object : ℕ → Session → Client e → Client e
  set_object h s c = record c { objects = λ k. if h == k then s else c.objects k }

  abbrev pub logged : ℕ → Bytes → Outcome SessionError (Unit {0}) → Client e → Client e
  logged h plain (ok _) c = record c { sent = c.sent ++ (h, plain) ∷ [] }
  logged h plain (err _) c = c
  logged h plain (panic _) c = c

  -- `sess.send(plain)`
  unfoldable pub send_to : Net → ℕ → Bytes → Handler (Unit {0})
  unfolding set_object
  send_to net h plain c =
      let (s, r) = send e.crypto (net h) (c.objects h) plain in
      (logged h plain r (set_object h s c), map_err session_failed r)

  -- `c.sessions.Load(pubKey)`
  unfoldable pub session_of : Bytes → Client e → Option ℕ
  session_of key c = lookup key c.sessions

infixl 5 ◌>>=◌ ◌>>◌
abbrev pub ◌>>=◌ : {e : Env} {A B : Type 0} → Handler e A → (A → Handler e B) → Handler e B
◌>>=◌ {e} = then_do e

abbrev pub ◌>>◌ : {e : Env} {B : Type 0} → Handler e (Unit {0}) → Handler e B → Handler e B
◌>>◌ {e} m k = then_do e m λ _. k
