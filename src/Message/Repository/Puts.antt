-- ===== src/Message/Repository/Puts.antt =====
-- message/message.go: `Put`.
use end_to_end_chat.Base.{ℕ, ◌≡◌, refl, ap, Bytes, List, none, length, inl, inr, ◌⊎◌, subst}
use end_to_end_chat.Base.Outcome.{ok, err}
use end_to_end_chat.Config.{nonce_size}
use end_to_end_chat.Store.Defs.{Env, Store, exec_failed, chats, found}
use end_to_end_chat.Store.Chats.{opened_row}
use end_to_end_chat.Store.Writes.{put_with_id-Written, put_with_id-refused}
use end_to_end_chat.Message.Defs.{Message, IsEncodable}
use end_to_end_chat.Message.Layout.{message_layout, encode-layout}
use end_to_end_chat.Message.RoundTrip.{to_message-layout}
use end_to_end_chat.Message.Repository.{
  RepositoryError, stored, decoded, put, index_and_cache, stored_id,
}
use end_to_end_chat.Message.Repository.Coherent.{Coherent}
use end_to_end_chat.Message.Repository.Changes.{
  Changes, Becomes, Changes-Becomes, Written-Changes, Changes-index_and_cache,
}

module _ (e : Env) where
  -- What is stored of a message that fits reads back as the message under its id.
  pub decoded-layout :
      (id : Bytes) (msg : Message)
      → IsEncodable msg
      → decoded e id (message_layout msg) ≡ ok (record msg { id = id })
  unfolding decoded
  decoded-layout id msg fits = rw (to_message-layout msg fits) refl

  -- In a store with a coherent cache, under a nonce of 12 bytes, putting a message whose fields fit
  -- does not panic. It fails with the statement and changes nothing, or it returns the id of the
  -- message, or the fresh id if that was nil; then the cache is coherent, `Get` gives the message
  -- under this id, and for every other id what it gave before, wherever the database answers.
  pub put-Becomes :
      (nonce : Bytes) (now : ℕ) (fresh secret from_name : Bytes) (msg : Message) (s : Store e)
      → length nonce ≡ nonce_size
      → IsEncodable msg
      → Coherent e secret s
      → (put e nonce now fresh secret from_name msg s ≡ (s, err (stored exec_failed)))
        ⊎ ((s' : Store e) × (put e nonce now fresh secret from_name msg s
              ≡ (s', ok (stored_id fresh msg)))
            × Coherent e secret s'
            × Becomes e secret s s'
                (stored_id fresh msg)
                (ok (record msg { id = stored_id fresh msg })))
  unfolding put
  put-Becomes nonce now fresh secret from_name msg s h fits c =
      elim (put_with_id-Written e nonce now id plain secret s h) [
        | inl failed ↦ inl (rw (encode-layout {E = RepositoryError} msg fits, failed) refl)
        | inr (s₁, a, written, w, back) ↦
            let changes =
              Changes-index_and_cache e secret now from_name (record msg { id = id })
                (subst (Changes e secret s s₁ id) back (Written-Changes e secret c w)) in
            inr (
              index_and_cache e now id from_name (record msg { id = id }) plain s₁,
              rw (encode-layout {E = RepositoryError} msg fits, written) refl,
              changes.coherent,
              subst
                  (Becomes e secret s
                    (index_and_cache e now id from_name (record msg { id = id }) plain s₁) id)
                  (decoded-layout id msg fits) (Changes-Becomes e secret c changes),
            )
      ]
    where
      id : Bytes
      id = stored_id fresh msg

      plain : Bytes
      plain = message_layout msg

  -- The database refuses the row of a message under an id.
  abbrev pub NotWritten : Bytes → Bytes → Message → Store e → Type 0
  NotWritten secret id msg s =
      (row : List Bytes) × (e.db.replace_row s.tables chats id row ≡ none)
      × (opened_row e secret (found row) ≡ ok (message_layout msg))

  pub put-NotWritten :
      (nonce : Bytes) (now : ℕ) (fresh secret from_name : Bytes) (msg : Message) (s : Store e)
      → length nonce ≡ nonce_size
      → IsEncodable msg
      → put e nonce now fresh secret from_name msg s ≡ (s, err (stored exec_failed))
      → NotWritten secret (stored_id fresh msg) msg s
  unfolding put
  put-NotWritten nonce now fresh secret from_name msg s h fits failed =
      elim (put_with_id-Written e nonce now id plain secret s h) [
        | inl gone ↦ put_with_id-refused e nonce now id plain secret s h gone
        | inr (s₁, a, written, _, _) ↦
            let done : put e nonce now fresh secret from_name msg s
                ≡ (index_and_cache e now id from_name (record msg { id = id }) plain s₁, ok id) =
              rw (encode-layout {E = RepositoryError} msg fits, written) refl in
            absurd (cc (ap (λ p. p.1) failed, ap (λ p. p.1) done))
      ]
    where
      id : Bytes
      id = stored_id fresh msg

      plain : Bytes
      plain = message_layout msg
