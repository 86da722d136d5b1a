-- ===== src/Message/Repository/Reads.antt =====
-- message/message.go: `Get` through the cache.
use end_to_end_chat.Base.{ℕ, ◌≡◌, ◌≢◌, refl, sym, ap, ◌∙◌, Bytes, Option, none, some}
use end_to_end_chat.Base.Outcome.{Outcome, ok, err, panic, map_err}
use end_to_end_chat.Base.Outcome
use end_to_end_chat.Base.Op.{after-lift}
use end_to_end_chat.Store.Defs.{Env, Store, StoreError, failed, no_rows, not_exist}
use end_to_end_chat.Store.Chats
use end_to_end_chat.Store.Chats.{cache_load, opened_row}
use end_to_end_chat.Store.Writes.{answer}
use end_to_end_chat.Message.Repository.Coherent.{Coherent, get-of_answer}
use end_to_end_chat.Message.Repository.{
  RepositoryError, stored, load_plain, load_behind, get, decoded,
}

module _ (e : Env) (secret : Bytes) where
  load_behind-Coherent :
      (now : ℕ) (id : Bytes) (s : Store e) (r : Outcome RepositoryError Bytes) (o : Option Bytes)
      → map_err stored (Chats.get e id secret s) ≡ r
      → ((v : Bytes) → o ≡ some v → ok v ≡ r)
      → (load_behind e now secret id o s).1 ≡ r
  unfolding load_behind
  load_behind-Coherent now id s (ok v) none h k = rw h refl
  load_behind-Coherent now id s (err x) none h k = rw h refl
  load_behind-Coherent now id s (panic p) none h k = rw h refl
  load_behind-Coherent now id s r (some v) h k = k v refl

  -- Where the cache is coherent and the database answers, loading gives what the table holds.
  pub load_plain-uncached :
      (now : ℕ) (id : Bytes) (s : Store e)
      → Coherent e secret s
      → answer e id s ≢ failed
      → (load_plain e now secret id s).1 ≡ map_err stored (Chats.get e id secret s)
  unfolding load_plain
  load_plain-uncached now id s coherent alive =
      load_behind-Coherent now id s _ (cache_load e now id s) refl
        λ v q. sym (ap (map_err stored) (coherent.at now id v q alive))

  -- Where the cache is coherent and the database answers the query, `Get` gives what it would give
  -- without the cache: the row decrypted and decoded, under the id that was asked for.
  pub get-uncached :
      (now : ℕ) (id : Bytes) (s : Store e)
      → Coherent e secret s
      → answer e id s ≢ failed
      → (get e now secret id s).1
        ≡ Outcome.◌>>=◌ (map_err stored (Chats.get e id secret s)) (decoded e id)
  unfolding get
  get-uncached now id s coherent alive =
      ap (λ p. p.1) (after-lift (load_plain e now secret id s) (decoded e id))
      ∙ ap (λ r. Outcome.◌>>=◌ r (decoded e id)) (load_plain-uncached now id s coherent alive)

  -- A message that is not in the table.
  pub get-missing :
      (now : ℕ) (id : Bytes) (s : Store e)
      → Coherent e secret s
      → answer e id s ≡ no_rows
      → (get e now secret id s).1 ≡ err (stored not_exist)
  unfolding opened_row
  get-missing now id s c same =
      get-uncached now id s c (λ dead. cc (same, dead))
      ∙ ap (λ (q : Outcome StoreError Bytes). Outcome.◌>>=◌ (map_err stored q) (decoded e id))
          (get-of_answer e secret id s no_rows same)
