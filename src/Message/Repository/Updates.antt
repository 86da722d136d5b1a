-- ===== src/Message/Repository/Updates.antt =====
-- message/message.go: `Update`.
use end_to_end_chat.Base.{
  ℕ, ◌≡◌, ◌≢◌, refl, sym, ap, ◌∙◌, ◌<◌, ◌^◌, Bytes, length, inl, inr, ◌⊎◌, subst, pos, IsInt64Nat,
}
use end_to_end_chat.Base.Outcome.{Outcome, ok, err, panic, map_err, bind-eq-ok, ok-injective}
use end_to_end_chat.Base.Outcome
use end_to_end_chat.Base.Op.{after-lift}
use end_to_end_chat.Config.{nonce_size}
use end_to_end_chat.Store.Defs.{Env, Store, Answer, failed, no_rows, found, exec_failed}
use end_to_end_chat.Store.Chats
use end_to_end_chat.Store.Chats.{opened_row, put_with_id}
use end_to_end_chat.Store.Writes.{answer, put_with_id-Written}
use end_to_end_chat.Message.Defs.{Message, IsEncodable}
use end_to_end_chat.Message.Encode.{encode}
use end_to_end_chat.Message.Decode.{to_message}
use end_to_end_chat.Message.Layout.{message_layout, encode-layout}
use end_to_end_chat.Message.Times.{to_message-created}
use end_to_end_chat.Message.Repository.{
  RepositoryError, stored, undecodable, get, decoded, update, index_and_cache, load_plain,
}
use end_to_end_chat.Message.Repository.Coherent.{Coherent}
use end_to_end_chat.Message.Repository.Reads.{get-missing}
use end_to_end_chat.Message.Repository.Changes.{
  Changes, Becomes, Changes-Becomes, Changes-after, Written-Changes, Changes-index_and_cache,
}
use end_to_end_chat.Message.Repository.Loads.{Kept, Kept-answer, get-Kept, forgive-ok}
use end_to_end_chat.Message.Repository.Puts.{decoded-layout}

map_err-eq-ok :
    {E F A : Type 0} (f : E → F) (r : Outcome E A) {a : A} → map_err f r ≡ ok a → r ≡ ok a
map_err-eq-ok f (ok b) h = ap ok (ok-injective h)
map_err-eq-ok f (err x) h = cc
map_err-eq-ok f (panic p) h = cc

module _ (e : Env) (secret : Bytes) where
  decoded-created :
      (id plain : Bytes) {msg : Message} → decoded e id plain ≡ ok msg → IsInt64Nat msg.created_at
  unfolding decoded
  decoded-created id plain h =
      let (m, first, last) = bind-eq-ok (map_err undecodable (to_message plain)) _ h in
      subst (λ (n : Message). IsInt64Nat n.created_at) (ok-injective last)
        (to_message-created plain (map_err-eq-ok undecodable (to_message plain) first))

  get-created :
      (now : ℕ) (id : Bytes) (s : Store e) {msg : Message}
      → (get e now secret id s).1 ≡ ok msg
      → IsInt64Nat msg.created_at
  unfolding get
  get-created now id s h =
      let r = load_plain e now secret id s in
      let (plain, _, last) =
        bind-eq-ok r.1 (decoded e id) (sym (ap (λ p. p.1) (after-lift r (decoded e id))) ∙ h) in
      decoded-created id plain last

  -- The query for a message that can be read finds a row, if it does not fail.
  found_row :
      (now : ℕ) (id : Bytes) (s : Store e) {msg : Message} (a : Answer)
      → Coherent e secret s
      → answer e id s ≡ a
      → a ≢ failed
      → (get e now secret id s).1 ≡ ok msg
      → Chats.exists e a ≡ ok tt
  unfolding Chats.exists opened_row
  found_row now id s failed c same alive h = absurd (alive refl)
  found_row now id s (found row) c same alive h = refl
  found_row now id s no_rows c same alive h = cc (h, get-missing e secret now id s c same)

  update_row :
      (nonce : Bytes) (now : ℕ) (id plain : Bytes) (s : Store e)
      → Chats.exists e (answer e id s) ≡ ok tt
      → Chats.update e nonce now id plain secret s ≡ put_with_id e nonce now id plain secret s
  unfolding Chats.update
  update_row nonce now id plain s h = rw h refl

  abbrev pub updated : ℕ → Message → Message → Message
  updated now old msg = record msg { created_at = old.created_at; updated_at = pos now }

  pub update-Changes :
      (nonce : Bytes) (now : ℕ) (id from_name : Bytes) (msg old : Message) (s : Store e)
      → length nonce ≡ nonce_size
      → now < 2 ^ 63
      → IsEncodable msg
      → Coherent e secret s
      → answer e id s ≢ failed
      → (get e now secret id s).1 ≡ ok old
      → ((s' : Store e) × (update e nonce now secret id from_name msg s
            ≡ (s', err (stored exec_failed)))
          × Kept e secret s s')
        ⊎ ((s' : Store e) × (update e nonce now secret id from_name msg s ≡ (s', ok tt))
            × Changes e secret s s' id (ok (message_layout (updated now old msg)))
            × (Outcome.◌>>=◌ (ok (message_layout (updated now old msg))) (decoded e id)
                ≡ ok (record (updated now old msg) { id = id })))
  unfolding update
  update-Changes nonce now id from_name msg old s h early fits c alive there =
      elim (put_with_id-Written e nonce now id plain secret s₀ h) [
        | inl gone ↦
            inl
              (s₀, rw (forgive-ok (get e now secret id s) there, encoded, to_row, gone) refl, kept)
        | inr (s₁, a, written, w, back) ↦ inr (
          index_and_cache e now id from_name new plain s₁,
          rw (forgive-ok (get e now secret id s) there, encoded, to_row, written) refl,
          Changes-after e secret (λ id'. Kept-answer e secret id' kept)
              (Changes-index_and_cache e secret now from_name new (
                subst (Changes e secret s₀ s₁ id) back (Written-Changes e secret kept.coherent w))),
          decoded-layout e id new new-IsEncodable,
        )
      ]
    where
      new : Message
      new = updated now old msg

      new-IsEncodable : IsEncodable new
      new-IsEncodable = record {
        id_fits = fits.id_fits;
        from_fits = fits.from_fits;
        to_fits = fits.to_fits;
        content_fits = fits.content_fits;
        time_fits = fits.time_fits;
        created_fits = get-created now id s there;
        updated_fits = early;
        count_fits = fits.count_fits;
        attachments_fit = fits.attachments_fit;
      }

      plain : Bytes
      plain = message_layout new

      encoded : encode {E = RepositoryError} new ≡ ok plain
      encoded = encode-layout new new-IsEncodable

      s₀ : Store e
      s₀ = (get e now secret id s).0

      kept : Kept e secret s s₀
      kept = get-Kept e secret now id s c

      to_row :
          Chats.update e nonce now id plain secret s₀ ≡ put_with_id e nonce now id plain secret s₀
      to_row = update_row nonce now id plain s₀ (
          ap (Chats.exists e) (Kept-answer e secret id kept)
          ∙ found_row now id s (answer e id s) c refl alive there)

  -- Updating a message that can be read, wherever the database answers, in a store with a coherent
  -- cache: with a nonce of 12 bytes, a time below 2^63 and fields that fit, it does not panic. It
  -- fails with the statement and leaves the table as it was, or the message under this id is the
  -- new one from then on, with the creation time of the old one and the given time as that of the
  -- update, and every other message is what it was.
  pub update-Becomes :
      (nonce : Bytes) (now : ℕ) (id from_name : Bytes) (msg old : Message) (s : Store e)
      → length nonce ≡ nonce_size
      → now < 2 ^ 63
      → IsEncodable msg
      → Coherent e secret s
      → answer e id s ≢ failed
      → (get e now secret id s).1 ≡ ok old
      → ((s' : Store e) × (update e nonce now secret id from_name msg s
            ≡ (s', err (stored exec_failed)))
          × Kept e secret s s')
        ⊎ ((s' : Store e) × (update e nonce now secret id from_name msg s ≡ (s', ok tt))
            × Coherent e secret s'
            × Becomes e secret s s' id (ok (record (updated now old msg) { id = id })))
  update-Becomes nonce now id from_name msg old s h early fits c alive there =
      elim (update-Changes nonce now id from_name msg old s h early fits c alive there) [
        | inl gone ↦ inl gone
        | inr (s', written, changes, text) ↦ inr (
          s',
          written,
          changes.coherent,
          subst (Becomes e secret s s' id) text (Changes-Becomes e secret c changes),
        )
      ]
