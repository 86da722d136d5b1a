-- ===== src/Message/Repository/Deletes.antt =====
-- message/message.go: `Delete`.
use end_to_end_chat.Base.{ℕ, ◌≡◌, refl, sym, ap, ◌∙◌, Bytes, List, [], ◌∷◌, inl, inr, ◌⊎◌}
use end_to_end_chat.Base.Outcome.{Outcome, ok, err, panic, map_err, bind-eq-ok, ok-injective}
use end_to_end_chat.Base.Outcome
use end_to_end_chat.Base.Op.{after, after-lift, lift}
use end_to_end_chat.Store.Defs.{Env, Store, exec_failed, not_exist}
use end_to_end_chat.Store.Files.{delete_file}
use end_to_end_chat.Store.Chats.{opened_row}
use end_to_end_chat.Store.Writes.{answer, delete-Written, delete_file-answer}
use end_to_end_chat.Message.Defs.{Attachment, Message}
use end_to_end_chat.Message.Decode.{to_message}
use end_to_end_chat.Message.Repository.{
  RepositoryError, stored, undecodable, get, decoded, delete, delete_files, load_plain,
}
use end_to_end_chat.Message.Repository.Coherent.{Coherent, Coherent-delete_file}
use end_to_end_chat.Message.Repository.Changes.{
  Changes, Becomes, Changes-Becomes, Changes-after, Written-Changes,
}
use end_to_end_chat.Message.Repository.Loads.{Kept, Kept-answer, load_plain-Kept}

module _ (e : Env) (secret : Bytes) where
  delete_files-answer :
      (items : List Attachment) (id : Bytes) (s : Store e)
      → answer e id (delete_files e items s) ≡ answer e id s
  unfolding delete_files
  delete_files-answer [] id s = refl
  delete_files-answer (a ∷ rest) id s =
      delete_files-answer rest id (delete_file e a.id s) ∙ delete_file-answer e a.id id s

  pub delete_files-Coherent :
      (items : List Attachment) {s : Store e}
      → Coherent e secret s
      → Coherent e secret (delete_files e items s)
  unfolding delete_files
  delete_files-Coherent [] c = c
  delete_files-Coherent (a ∷ rest) c =
      delete_files-Coherent rest (Coherent-delete_file e secret a.id c)

  -- The text of a message that can be read.
  decoded-to_message :
      (id : Bytes) (r : Outcome RepositoryError Bytes) {msg : Message}
      → Outcome.◌>>=◌ r (decoded e id) ≡ ok msg
      → (m : Message) × (Outcome.◌>>=◌ r (λ plain. map_err undecodable (to_message plain)) ≡ ok m)
        × (m.attachments ≡ msg.attachments)
  unfolding decoded
  decoded-to_message id r h =
      let (plain, first, rest) = bind-eq-ok r (decoded e id) h in
      let (m, second, last) = bind-eq-ok (map_err undecodable (to_message plain)) _ rest in
      (
        m,
        ap
              (λ (q : Outcome RepositoryError Bytes).
                Outcome.◌>>=◌ q (λ p. map_err undecodable (to_message p)))
              first
            ∙ second,
        ap (λ (n : Message). n.attachments) (ok-injective last),
      )

  pub delete-Changes :
      (now : ℕ) (id : Bytes) (old : Message) (s : Store e)
      → Coherent e secret s
      → (get e now secret id s).1 ≡ ok old
      → ((s' : Store e) × (delete e now secret id s ≡ (s', err (stored exec_failed)))
          × Coherent e secret s'
          × ((id' : Bytes) → answer e id' s' ≡ answer e id' s))
        ⊎ ((s' : Store e) × (delete e now secret id s ≡ (s', ok tt))
            × Changes e secret s s' id (err not_exist))
  unfolding delete get opened_row
  delete-Changes now id old s c there = elim (delete-Written e id s₁) [
    | inl gone ↦ inl (s₁, rw (existing, gone) refl, clean, same)
    | inr (s', deleted, w) ↦ inr (
      s',
      rw (existing, deleted) refl,
      Changes-after e secret same (Written-Changes e secret clean w),
    )
  ]
    where
      loaded : Store e × Outcome RepositoryError Bytes
      loaded = load_plain e now secret id s

      kept : Kept e secret s loaded.0
      kept = load_plain-Kept e secret now id s c

      read :
          (m : Message) × (Outcome.◌>>=◌ loaded.1 (λ plain. map_err undecodable (to_message plain))
            ≡ ok m)
          × (m.attachments ≡ old.attachments)
      read =
          decoded-to_message id loaded.1
            (sym (ap (λ p. p.1) (after-lift loaded (decoded e id))) ∙ there)

      existing :
          after loaded (λ plain. lift (map_err undecodable (to_message plain)))
          ≡ (loaded.0, ok read.0)
      existing =
          after-lift loaded (λ plain. map_err undecodable (to_message plain))
          ∙ ap (λ (r : Outcome RepositoryError Message). (loaded.0, r)) read.1

      s₁ : Store e
      s₁ = delete_files e read.0.attachments loaded.0

      clean : Coherent e secret s₁
      clean = delete_files-Coherent read.0.attachments kept.coherent

      same : (id' : Bytes) → answer e id' s₁ ≡ answer e id' s
      same id' = delete_files-answer read.0.attachments id' loaded.0 ∙ Kept-answer e secret id' kept

  -- Deleting a message that can be read, in a store with a coherent cache, does not panic. It fails
  -- with the statement and leaves the messages as they were, or the message is not there from then
  -- on, and every other message is what it was.
  pub delete-Becomes :
      (now : ℕ) (id : Bytes) (old : Message) (s : Store e)
      → Coherent e secret s
      → (get e now secret id s).1 ≡ ok old
      → ((s' : Store e) × (delete e now secret id s ≡ (s', err (stored exec_failed)))
          × Coherent e secret s'
          × ((id' : Bytes) → answer e id' s' ≡ answer e id' s))
        ⊎ ((s' : Store e) × (delete e now secret id s ≡ (s', ok tt))
            × Coherent e secret s'
            × Becomes e secret s s' id (err (stored not_exist)))
  delete-Becomes now id old s c there = elim (delete-Changes now id old s c there) [
    | inl gone ↦ inl gone
    | inr (s', deleted, changes) ↦
        inr (s', deleted, changes.coherent, Changes-Becomes e secret c changes)
  ]
