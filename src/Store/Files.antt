-- ===== src/Store/Files.antt =====
-- store/files.go: the encrypted files.
use end_to_end_chat.Base.{ℕ, Bytes, [], ◌∷◌}
use end_to_end_chat.Base.Outcome.{Outcome, err}
use end_to_end_chat.Base.Op.{Op, ◌>>=◌, lift}
use end_to_end_chat.Store.Defs.{
  files, Answer, failed, no_rows, found, Env, Store, StoreError, not_exist, query_failed,
}
use end_to_end_chat.Store.Statements.{executed, replace, tried}
use end_to_end_chat.Store.Secret.{encrypt_raw, decrypt_raw}

module _ (e : Env) where
  -- `(*FileStore).PutWithID`, under the nonce that `encryptRaw` draws, at the time `now`.
  unfoldable pub put_file :
      Bytes → ℕ → Bytes → Bytes → Bytes → Bytes → Op (Store e) StoreError (Unit {0})
  unfolding executed
  put_file nonce now secret id msg_id contents = do
    encrypted ← lift (encrypt_raw e secret nonce contents)
    replace e files id (encrypted ∷ msg_id ∷ e.rfc3339 now ∷ [])

  -- The file in the answer to the query of `(*FileStore).Get`.
  unfoldable pub opened_file : Bytes → Answer → Outcome StoreError Bytes
  opened_file secret failed = err query_failed
  opened_file secret no_rows = err not_exist
  opened_file secret (found []) = err query_failed
  opened_file secret (found (encrypted ∷ _)) = decrypt_raw e secret encrypted

  unfoldable pub get_file : Bytes → Bytes → Store e → Outcome StoreError Bytes
  unfolding opened_file
  get_file secret id s = opened_file secret (e.db.select_row s.tables files id)

  -- `_ = (*FileStore).Delete(id)`: the callers drop or log the error.
  unfoldable pub delete_file : Bytes → Store e → Store e
  unfolding tried
  delete_file id s = tried e s (e.db.delete_row s.tables files id)
