-- ===== src/Store/Chats.antt =====
-- store/chats.go: the table of messages with its cache, and the table for the search.
use end_to_end_chat.Base.{ℕ, Bytes, [], ◌∷◌, Option}
use end_to_end_chat.Base.Outcome.{Outcome, ok, err}
use end_to_end_chat.Base.Op.{Op, ◌>>=◌, ◌>>◌, lift, modify}
use end_to_end_chat.Store.Defs.{
  chats, chat_search, Answer, failed, no_rows, found, Env, Store, StoreError, not_exist,
  query_failed,
}
use end_to_end_chat.Store.Statements.{executed, replace, remove_row, tried}
use end_to_end_chat.Store.Secret.{encrypt, decrypt}

module _ (e : Env) where
  unfoldable pub uncache : Bytes → Store e → Store e
  uncache id s = record s { cached = e.cache.remove s.cached id }

  -- `(*ChatStore).PutWithID`, under the nonce that `encrypt` draws, at the time `now`.
  unfoldable pub put_with_id :
      Bytes → ℕ → Bytes → Bytes → Bytes → Op (Store e) StoreError (Unit {0})
  unfolding executed uncache
  put_with_id nonce now id value secret = do
    encrypted ← lift (encrypt e secret nonce value)
    replace e chats id (encrypted ∷ e.rfc3339 now ∷ [])
    modify (uncache id)

  unfoldable pub cache_store : ℕ → Bytes → Bytes → Store e → Store e
  cache_store now id plain s = record s { cached = e.cache.set s.cached now id plain }

  abbrev pub cache_load : ℕ → Bytes → Store e → Option Bytes
  cache_load now id s = e.cache.lookup s.cached now id

  -- The message in the answer to the query of `(*ChatStore).Get`.
  unfoldable pub opened_row : Bytes → Answer → Outcome StoreError Bytes
  opened_row secret failed = err query_failed
  opened_row secret no_rows = err not_exist
  opened_row secret (found []) = err query_failed
  opened_row secret (found (value ∷ _)) = decrypt e secret value

  unfoldable pub get : Bytes → Bytes → Store e → Outcome StoreError Bytes
  unfolding opened_row
  get id secret s = opened_row secret (e.db.select_row s.tables chats id)

  -- The answer to `SELECT EXISTS(...)`.
  unfoldable pub exists : Answer → Outcome StoreError (Unit {0})
  exists failed = err query_failed
  exists no_rows = err not_exist
  exists (found _) = ok tt

  unfoldable pub update : Bytes → ℕ → Bytes → Bytes → Bytes → Op (Store e) StoreError (Unit {0})
  unfolding exists
  update nonce now id value secret = do
    (λ s. (s, exists (e.db.select_row s.tables chats id)))
    put_with_id nonce now id value secret

  -- `_ = IndexSearch(...)`
  unfoldable pub index_search : Bytes → Bytes → Bytes → Bytes → Store e → Store e
  unfolding tried
  index_search id from_name to_name text s =
      tried e s (e.db.replace_row s.tables chat_search id (from_name ∷ to_name ∷ text ∷ []))

  -- `_ = deleteSearchIndex(id)`
  unfoldable pub delete_search_index : Bytes → Store e → Store e
  unfolding tried
  delete_search_index id s = tried e s (e.db.delete_row s.tables chat_search id)

  unfoldable pub delete : Bytes → Op (Store e) StoreError (Unit {0})
  unfolding executed delete_search_index uncache
  delete id = do remove_row e chats id; modify (delete_search_index id); modify (uncache id)
