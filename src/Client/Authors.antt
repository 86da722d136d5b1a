-- ===== src/Client/Authors.antt =====
-- client/client.go: `verifyAuthor`, and what peers can do to messages that they did not write.
use end_to_end_chat.Base.{
  ℕ, ◌≡◌, ◌≢◌, refl, sym, ap, ◌∙◌, Bytes, true, false, not, ◌&&◌, bytes_eq, bytes_eq_refl,
  bytes_eq-ne, arith, length, ◌<◌, ◌^◌, subst, pos, Bool-cases, inl, inr, ◌⊎◌,
}
use end_to_end_chat.Base.Outcome.{ok, err}
use end_to_end_chat.Keys.Defs.{nil_key}
use end_to_end_chat.Signal.Defs.{Signal}
use end_to_end_chat.Store.Defs.{Draws, Env, failed, exec_failed, not_exist}
use end_to_end_chat.Store.Writes.{answer}
use end_to_end_chat.Config.{nonce_size}
use end_to_end_chat.Message.Defs.{Message, IsEncodable}
use end_to_end_chat.Message.Repository
use end_to_end_chat.Message.Repository.{RepositoryError, stored, get}
use end_to_end_chat.Message.Repository.Coherent.{Coherent}
use end_to_end_chat.Message.Repository.Loads.{Kept, Kept-answer, get-Kept, get-Kept_same}
use end_to_end_chat.Message.Repository.Changes.{Becomes, Changes-Becomes, Changes-after}
use end_to_end_chat.Message.Repository.Deletes.{delete-Changes}
use end_to_end_chat.Message.Repository.Updates.{update-Changes}
use end_to_end_chat.Client.State.{
  Client, Warning, on_store, then_do, key_mismatch, not_author, repository_failed,
}
use end_to_end_chat.Client.Peers.{get_name}
use end_to_end_chat.Client.Signals.{
  verify_author, verify_and_delete, verify_and_update, handle_delete, handle_update,
}

module _ (e : Env) where
  abbrev pub Loaded : Bytes → Message → ℕ → Client e → Type 0
  Loaded id msg now c = (Repository.get e now c.private id c.store).1 ≡ ok msg

  -- The client behind the search for the author.
  abbrev pub looked_up : ℕ → Bytes → Client e → Client e
  looked_up now id c = record c { store = (Repository.get e now c.private id c.store).0 }

  is_author_false :
      (key author : Bytes)
      → key ≢ author
      → (not (bytes_eq author nil_key) && bytes_eq key author) ≡ false
  is_author_false key author differ = ground (arith, bytes_eq-ne key author differ)

  is_author_true :
      (key author : Bytes)
      → key ≡ author
      → key ≢ nil_key
      → (not (bytes_eq author nil_key) && bytes_eq key author) ≡ true
  is_author_true key author same known = ground (
    arith,
    bytes_eq-ne author nil_key (λ q. known (same ∙ q)),
    ap (bytes_eq key) (sym same) ∙ bytes_eq_refl key,
  )

  verify_author-foreign :
      (now : ℕ) (id key : Bytes) (old : Message) (c : Client e)
      → Loaded id old now c
      → key ≢ old.from_pub_key
      → verify_author e now id key c ≡ (looked_up now id c, err not_author)
  unfolding verify_author on_store then_do
  verify_author-foreign now id key old c there differ =
      rw (there, is_author_false key old.from_pub_key differ) refl

  pub verify_author-own :
      (now : ℕ) (id key : Bytes) (old : Message) (c : Client e)
      → Loaded id old now c
      → key ≡ old.from_pub_key
      → key ≢ nil_key
      → verify_author e now id key c ≡ (looked_up now id c, ok old)
  unfolding verify_author on_store then_do
  verify_author-own now id key old c there same known =
      rw (there, is_author_true key old.from_pub_key same known) refl

  -- For a message that can be read, in a store with a coherent cache, and a peer whose key is not
  -- that of its author: signals of this peer to delete or to update the message end with the same
  -- warning, and leave the table of the messages as it was and the cache coherent.
  pub handle_delete-foreign :
      (d : Draws) (sig : Signal) (key : Bytes) (old : Message) (c : Client e)
      → Coherent e c.private c.store
      → Loaded sig.id old d.now c
      → key ≢ old.from_pub_key
      → (c' : Client e) × (w : Warning) × (handle_delete e d sig key c ≡ (c', err w))
        × (handle_update e d sig key c ≡ (c', err w))
        × Kept e c.private c.store c'.store
  unfolding handle_delete handle_update verify_and_delete verify_and_update then_do
  handle_delete-foreign d sig key old c coherent there differ =
      elim (Bool-cases (bytes_eq sig.from key)) [
        | inl own ↦ (
          looked_up d.now sig.id c,
          not_author,
          rw (own, verify_author-foreign d.now sig.id key old c there differ) refl,
          rw (own, verify_author-foreign d.now sig.id key old c there differ) refl,
          get-Kept e c.private d.now sig.id c.store coherent,
        )
        | inr other ↦ (
          c,
          key_mismatch,
          rw other refl,
          rw other refl,
          record { coherent = coherent; tables = refl },
        )
      ]

  behind :
      (now : ℕ) (id : Bytes) (c : Client e)
      → Coherent e c.private c.store
      → Kept e c.private c.store (looked_up now id c).store
  behind now id c coherent = get-Kept e c.private now id c.store coherent

  still_there :
      (now : ℕ) (id : Bytes) (old : Message) (c : Client e)
      → Coherent e c.private c.store
      → answer e id c.store ≢ failed
      → Loaded id old now c
      → Loaded id old now (looked_up now id c)
  still_there now id old c coherent alive there =
      get-Kept_same e c.private now id (behind now id c coherent) coherent alive ∙ there

  -- For a message that can be read, wherever the database answers for it, in a store with a
  -- coherent cache, and a signal of its author, whose key is not nil, to delete it: the statement
  -- fails and every message is what it was, or the handler ends without an error, `Get` does not
  -- find the message from then on, and every other message is what it was.
  pub handle_delete-own :
      (d : Draws) (sig : Signal) (key : Bytes) (old : Message) (c : Client e)
      → Coherent e c.private c.store
      → answer e sig.id c.store ≢ failed
      → Loaded sig.id old d.now c
      → sig.from ≡ key
      → key ≡ old.from_pub_key
      → key ≢ nil_key
      → ((c' : Client e) × (handle_delete e d sig key c
            ≡ (c', err (repository_failed (stored exec_failed))))
          × Coherent e c.private c'.store
          × ((id : Bytes) → answer e id c'.store ≡ answer e id c.store))
        ⊎ ((c' : Client e) × (handle_delete e d sig key c ≡ (c', ok tt))
            × Coherent e c.private c'.store
            × Becomes e c.private c.store c'.store sig.id (err (stored not_exist)))
  unfolding handle_delete verify_and_delete then_do on_store
  handle_delete-own d sig key old c coherent alive there sender same known =
      elim (delete-Changes e c.private d.now sig.id old c₀.store kept.coherent
        (still_there d.now sig.id old c coherent alive there)) [
          | inl (s', gone, clean, answers) ↦ inl (
            record c₀ { store = s' },
            rw (sent, own, gone) refl,
            clean,
            λ id. answers id ∙ Kept-answer e c.private id kept,
          )
          | inr (s', deleted, changes) ↦ inr (
            record c₀ { store = s' },
            rw (sent, own, deleted) refl,
            changes.coherent,
            Changes-Becomes e c.private coherent
                (Changes-after e c.private (λ id. Kept-answer e c.private id kept) changes),
          )
        ]
    where
      c₀ : Client e
      c₀ = looked_up d.now sig.id c

      kept : Kept e c.private c.store c₀.store
      kept = behind d.now sig.id c coherent

      sent : bytes_eq sig.from key ≡ true
      sent = ap (bytes_eq sig.from) (sym sender) ∙ bytes_eq_refl sig.from

      own : verify_author e d.now sig.id key c ≡ (c₀, ok old)
      own = verify_author-own d.now sig.id key old c there same known

  -- For a message that can be read, wherever the database answers for it, in a store with a
  -- coherent cache, and a signal of its author, whose key is not nil, to update it, with a nonce of
  -- 12 bytes, a time below 2^63 and fields that fit: the statement fails and the table is what it
  -- was, or the handler ends without an error, `Get` gives the message with the new text and the
  -- time of the update from then on, all else as before, and every other message is what it was.
  pub handle_update-own :
      (d : Draws) (sig : Signal) (key : Bytes) (old : Message) (c : Client e)
      → length d.nonce ≡ nonce_size
      → d.now < 2 ^ 63
      → IsEncodable (record old { content = sig.content })
      → Coherent e c.private c.store
      → answer e sig.id c.store ≢ failed
      → Loaded sig.id old d.now c
      → sig.from ≡ key
      → key ≡ old.from_pub_key
      → key ≢ nil_key
      → ((c' : Client e) × (handle_update e d sig key c
            ≡ (c', err (repository_failed (stored exec_failed))))
          × Kept e c.private c.store c'.store)
        ⊎ ((c' : Client e) × (handle_update e d sig key c ≡ (c', ok tt))
            × Coherent e c.private c'.store
            × Becomes e c.private c.store c'.store sig.id
                (ok (record old { id = sig.id; content = sig.content; updated_at = pos d.now })))
  unfolding handle_update verify_and_update then_do on_store
  handle_update-own d sig key old c nonce early fits coherent alive there sender same known =
      elim (update-Changes e c.private d.nonce d.now sig.id (get_name e c₀)
        (record old { content = sig.content }) old c₀.store nonce early fits kept.coherent
        (λ dead. alive (sym (Kept-answer e c.private sig.id kept) ∙ dead))
        (still_there d.now sig.id old c coherent alive there)) [
          | inl (s', gone, again) ↦ inl (
            record c₀ { store = s' },
            rw (sent, own, gone) refl,
            record { coherent = again.coherent; tables = again.tables ∙ kept.tables },
          )
          | inr (s', written, changes, text) ↦ inr (
            record c₀ { store = s' },
            rw (sent, own, written) refl,
            changes.coherent,
            subst (Becomes e c.private c.store s' sig.id) text (
                Changes-Becomes e c.private coherent
                  (Changes-after e c.private (λ id. Kept-answer e c.private id kept) changes)),
          )
        ]
    where
      c₀ : Client e
      c₀ = looked_up d.now sig.id c

      kept : Kept e c.private c.store c₀.store
      kept = behind d.now sig.id c coherent

      sent : bytes_eq sig.from key ≡ true
      sent = ap (bytes_eq sig.from) (sym sender) ∙ bytes_eq_refl sig.from

      own : verify_author e d.now sig.id key c ≡ (c₀, ok old)
      own = verify_author-own d.now sig.id key old c there same known
