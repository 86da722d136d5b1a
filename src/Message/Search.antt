-- ===== src/Message/Search.antt =====
-- message/message.go: `Search`, on what the full-text index of the database finds. `matches` is the
-- query of `(*ChatStore).Search` with its limit, `parse` is `uuid.Parse`.
pub mod Hits
mod Tests
use end_to_end_chat.Base.{ℕ, ◌==◌, Bytes, List, [], ◌∷◌, Option, none, some, length, if◌then◌else◌}
use end_to_end_chat.Base.Outcome.{Outcome, map_err}
use end_to_end_chat.Base.Op.{Op, ◌>>=◌, return, attempt}
use end_to_end_chat.Store.Defs.{Env, Store, StoreError, query_failed}
use end_to_end_chat.Store.Secret.{or_fail}
use end_to_end_chat.Message.Defs.{Message}
use end_to_end_chat.Message.Repository.{RepositoryError, stored, get}

abbrev pub added : Option Message → List Message → List Message
added none msgs = msgs
added (some msg) msgs = msg ∷ msgs

module _ (e : Env) (matches : e.db.State → Bytes → ℕ → Option (List Bytes))
    (parse : Bytes → Option Bytes) where
  -- `(*ChatStore).Search`
  unfoldable pub search_index : Bytes → ℕ → Store e → Outcome StoreError (List Bytes)
  search_index query limit s = or_fail (matches s.tables query limit) query_failed

  -- A row of the index whose id is none, or cannot be read, is passed over.
  unfoldable pub read_hit : ℕ → Bytes → Option Bytes → Op (Store e) RepositoryError (Option Message)
  read_hit now secret none = return none
  read_hit now secret (some id) = attempt (get e now secret id)

  unfoldable pub read_hits : ℕ → Bytes → List Bytes → Op (Store e) RepositoryError (List Message)
  unfolding read_hit
  read_hits now secret [] = return []
  read_hits now secret (text ∷ texts) = do
    msg ← read_hit now secret (parse text)
    rest ← read_hits now secret texts
    return (added msg rest)

  unfoldable pub search : ℕ → Bytes → Bytes → ℕ → Op (Store e) RepositoryError (List Message)
  unfolding search_index read_hits
  search now secret query limit = if length query == 0 then return [] else (do
    ids ← (λ s. (s, map_err stored (search_index query limit s)))
    read_hits now secret ids)
