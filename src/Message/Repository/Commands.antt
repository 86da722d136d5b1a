-- ===== src/Message/Repository/Commands.antt =====
-- message/message.go: the calls of the repository as commands, and what they mean for a table of
-- messages, which is a function from ids.
use end_to_end_chat.Base.{
  ℕ, pos, ◌≡◌, ◌<◌, ◌^◌, Bytes, List, [], ◌∷◌, Option, none, some, length, Bool, true, false,
  bytes_eq, if◌then◌else◌,
}
use end_to_end_chat.Base.Outcome.{Outcome, ok, err}
use end_to_end_chat.Config.{nonce_size}
use end_to_end_chat.Store.Defs.{Draws, not_exist, exec_failed}
use end_to_end_chat.Message.Defs.{Message, IsEncodable}
use end_to_end_chat.Message.Repository.{RepositoryError, stored, stored_id}

-- The calls of the repository, each with what it draws.
pub data Command : Type 0 where
  put_message : Draws → Bytes → Message → Command
  get_message : ℕ → Bytes → Command
  update_message : Draws → Bytes → Bytes → Message → Command
  delete_message : ℕ → Bytes → Command

pub data Reply : Type 0 where
  stored_at : Bytes → Reply
  message_is : Message → Reply
  done : Reply

abbrev pub Result : Type 0
Result = Outcome RepositoryError Reply

-- The abstract state.
abbrev pub Messages : Type 0
Messages = Bytes → Option Message

abbrev pub with_message : Bytes → Option Message → Messages → Messages
with_message id o m = λ id'. if bytes_eq id id' then o else m id'

abbrev pub found_message : Option Message → Outcome RepositoryError Message
found_message none = err (stored not_exist)
found_message (some msg) = ok msg

abbrev pub put_abstract : Bytes → Message → Messages → Messages × Result
put_abstract id msg m = (with_message id (some (record msg { id = id })) m, ok (stored_at id))

abbrev pub get_abstract : Option Message → Messages → Messages × Result
get_abstract none m = (m, err (stored not_exist))
get_abstract (some msg) m = (m, ok (message_is msg))

abbrev pub update_abstract : ℕ → Bytes → Message → Option Message → Messages → Messages × Result
update_abstract now id msg none m = (m, err (stored not_exist))
update_abstract now id msg (some old) m = (
  with_message id (some (record msg { id = id; created_at = old.created_at; updated_at = pos now }))
      m,
  ok done,
)

-- What a command does to the messages.
abbrev pub meant : Command → Messages → Messages × Result
meant (put_message d from_name msg) m = put_abstract (stored_id d.fresh msg) msg m
meant (get_message now id) m = get_abstract (m id) m
meant (update_message d from_name id msg) m = update_abstract d.now id msg (m id) m
meant (delete_message now id) m = (with_message id none m, ok done)

abbrev pub is_write : Command → Bool
is_write (get_message now id) = false
is_write (put_message d from_name msg) = true
is_write (update_message d from_name id msg) = true
is_write (delete_message now id) = true

-- What the calls ask for: a nonce of 12 bytes, a time in the range of int64, fields that fit.
abbrev pub IsCall : Command → Type 0
IsCall (put_message d from_name msg) = (length d.nonce ≡ nonce_size) × IsEncodable msg
IsCall (get_message now id) = Unit {0}
IsCall (update_message d from_name id msg) =
    (length d.nonce ≡ nonce_size) × (d.now < 2 ^ 63) × IsEncodable msg
IsCall (delete_message now id) = Unit {0}

-- The messages and the results that a list of commands may lead to: a write may fail with its
-- statement, and everything else happens as it is meant.
pub data Runs : List Command → Messages → List Result → Messages → Type 0 where
  finished : {m : Messages} → Runs [] m [] m
  as_meant :
      {c : Command} {cs : List Command} {m m' n : Messages} {r : Result} {rs : List Result}
      → meant c m ≡ (m', r)
      → Runs cs m' rs n
      → Runs (c ∷ cs) m (r ∷ rs) n
  refused :
      {c : Command} {cs : List Command} {m n : Messages} {rs : List Result}
      → is_write c ≡ true
      → Runs cs m rs n
      → Runs (c ∷ cs) m (err (stored exec_failed) ∷ rs) n
