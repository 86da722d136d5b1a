-- ===== src/Message/Repository/Missing.antt =====
-- message/message.go: `Update` and `Delete` of a message that is not there.
use end_to_end_chat.Client.Crypto.{is_aes_key}
use end_to_end_chat.Config.{nonce_size}
use end_to_end_chat.Base.{
  take, drop, ltb, not, ℕ, pos, arith, ◌≡◌, ◌≢◌, refl, sym, ap, ◌∙◌, ◌<◌, ◌^◌, Bytes, [], ◌∷◌,
  Option, none, some, length, inl, inr, ◌⊎◌, Bool, true, false,
}
use end_to_end_chat.Base.Outcome.{Outcome, ok, err, panic, map_err, guard}
use end_to_end_chat.Base.Outcome
use end_to_end_chat.Base.Op.{after, lift}
use end_to_end_chat.Store.Defs.{
  Env, Store, StoreError, Answer, failed, no_rows, found, not_exist, exec_failed, bad_base64,
  new_cipher, invalid_ciphertext, open_failed,
}
use end_to_end_chat.Store.Secret.{aes_key, or_fail, decrypt, decrypt_raw}
use end_to_end_chat.Store.Chats
use end_to_end_chat.Store.Chats.{opened_row}
use end_to_end_chat.Store.Writes.{answer, delete-Written}
use end_to_end_chat.Message.Defs.{Message, IsEncodable, DecodeError}
use end_to_end_chat.Message.Layout.{encode-layout}
use end_to_end_chat.Message.Decode.{to_message}
use end_to_end_chat.Message.Repository.{
  RepositoryError, stored, undecodable, get, decoded, update, delete, load_plain,
}
use end_to_end_chat.Message.Repository.Coherent.{Coherent, get-of_answer}
use end_to_end_chat.Message.Repository.Reads.{get-uncached, load_plain-uncached}
use end_to_end_chat.Message.Repository.Changes.{
  Becomes, Changes-Becomes, Changes-after, Written-Changes,
}
use end_to_end_chat.Message.Repository.Loads.{
  Kept, Kept-answer, get-Kept, load_plain-Kept, forgive-err,
}

bind-ne-err :
    {E A B : Type 0} (x : E) (m : Outcome E A) (f : A → Outcome E B)
    → m ≢ err x
    → ((a : A) → f a ≢ err x)
    → Outcome.◌>>=◌ m f ≢ err x
bind-ne-err x (ok a) f h k = k a
bind-ne-err x (err y) f h k = λ q. h (ground arith)
bind-ne-err x (panic p) f h k = λ q. cc

or_fail-ne : {A : Type 0} (x y : StoreError) (o : Option A) → y ≢ x → or_fail o y ≢ err x
or_fail-ne x y none h = λ q. h (ground arith)
or_fail-ne x y (some a) h = λ q. cc

guard-ne : {E : Type 0} (x y : E) (b : Bool) → y ≢ x → guard b y ≢ err x
guard-ne x y true h = λ q. cc
guard-ne x y false h = λ q. h (ground arith)

dated :
    (now : ℕ) (msg : Message)
    → now < 2 ^ 63
    → IsEncodable msg
    → IsEncodable (record msg { updated_at = pos now })
dated now msg early fits = record {
  id_fits = fits.id_fits;
  from_fits = fits.from_fits;
  to_fits = fits.to_fits;
  content_fits = fits.content_fits;
  time_fits = fits.time_fits;
  created_fits = fits.created_fits;
  updated_fits = early;
  count_fits = fits.count_fits;
  attachments_fit = fits.attachments_fit;
}

-- The error of the store in that of the repository.
stored-missing :
    (e : Env) (id : Bytes) (r : Outcome StoreError Bytes)
    → Outcome.◌>>=◌ (map_err stored r) (decoded e id) ≡ err (stored not_exist)
    → r ≡ err not_exist
unfolding decoded
stored-missing e id (err x) h = ground arith
stored-missing e id (panic p) h = cc
stored-missing e id (ok plain) h = undecoded (to_message plain) h
  where
    undecoded :
        (r : Outcome DecodeError Message)
        → Outcome.◌>>=◌ (map_err undecodable r) (λ (msg : Message). ok (record msg { id = id }))
          ≡ err (stored not_exist)
        → ok plain ≡ err not_exist
    undecoded (ok m) q = cc
    undecoded (err x) q = cc
    undecoded (panic p) q = cc

module _ (e : Env) (secret : Bytes) where
  decrypt_raw-ne-not_exist : (input : Bytes) → decrypt_raw e secret input ≢ err not_exist
  unfolding decrypt_raw
  decrypt_raw-ne-not_exist input =
      bind-ne-err not_exist (guard (is_aes_key (aes_key e secret)) new_cipher) _
        (guard-ne not_exist new_cipher _ λ q. cc)
        λ _.
          bind-ne-err not_exist (guard (not (ltb (length input) nonce_size)) invalid_ciphertext) _
            (guard-ne not_exist invalid_ciphertext _ λ q. cc)
            λ _.
              or_fail-ne not_exist open_failed
                (e.crypto.unseal (aes_key e secret) (take nonce_size input) (drop nonce_size input))
                λ q. cc

  decrypt-ne-not_exist : (input : Bytes) → decrypt e secret input ≢ err not_exist
  unfolding decrypt
  decrypt-ne-not_exist input =
      bind-ne-err not_exist (or_fail (e.from_base64 input) bad_base64) (decrypt_raw e secret)
        (or_fail-ne not_exist bad_base64 (e.from_base64 input) λ q. cc) decrypt_raw-ne-not_exist

  opened_row-missing : (a : Answer) → opened_row e secret a ≡ err not_exist → a ≡ no_rows
  unfolding opened_row
  opened_row-missing failed h = cc
  opened_row-missing no_rows h = refl
  opened_row-missing (found []) h = cc
  opened_row-missing (found (v ∷ _)) h = absurd (decrypt-ne-not_exist v h)

  -- `Get` says that a message is not there only if the table has no row for it.
  missing-answer :
      (now : ℕ) (id : Bytes) (s : Store e)
      → Coherent e secret s
      → answer e id s ≢ failed
      → (get e now secret id s).1 ≡ err (stored not_exist)
      → answer e id s ≡ no_rows
  missing-answer now id s c alive h = opened_row-missing (answer e id s) (
      sym (get-of_answer e secret id s (answer e id s) refl)
      ∙ stored-missing e id (Chats.get e id secret s)
          (sym (get-uncached e secret now id s c alive) ∙ h))

  -- Updating a message that is not there fails, and changes nothing.
  pub update-missing :
      (nonce : Bytes) (now : ℕ) (id from_name : Bytes) (msg : Message) (s : Store e)
      → now < 2 ^ 63
      → IsEncodable msg
      → Coherent e secret s
      → answer e id s ≢ failed
      → (get e now secret id s).1 ≡ err (stored not_exist)
      → (s' : Store e) × (update e nonce now secret id from_name msg s
          ≡ (s', err (stored not_exist)))
        × Kept e secret s s'
  unfolding update Chats.update Chats.exists
  update-missing nonce now id from_name msg s early fits c alive h =
      let s₀ = (get e now secret id s).0 in
      let kept = get-Kept e secret now id s c in
      let gone = Kept-answer e secret id kept ∙ missing-answer now id s c alive h in
      (
        s₀,
        rw
            (
              forgive-err (get e now secret id s) h,
              encode-layout {E = RepositoryError} (record msg { updated_at = pos now })
                  (dated now msg early fits),
              gone,
            )
            refl,
        kept,
      )

  -- Deleting a message that is not there fails with the statement, or leaves the messages as they are.
  pub delete-missing :
      (now : ℕ) (id : Bytes) (s : Store e)
      → Coherent e secret s
      → answer e id s ≢ failed
      → (get e now secret id s).1 ≡ err (stored not_exist)
      → ((s' : Store e) × (delete e now secret id s ≡ (s', err (stored exec_failed)))
          × Kept e secret s s')
        ⊎ ((s' : Store e) × (delete e now secret id s ≡ (s', ok tt))
            × Coherent e secret s'
            × Becomes e secret s s' id (err (stored not_exist)))
  unfolding delete opened_row
  delete-missing now id s c alive h = elim (delete-Written e id s₀) [
    | inl gone ↦ inl (s₀, rw (existing, gone) refl, kept)
    | inr (s', deleted, w) ↦
        let changes =
          Changes-after e secret (λ id'. Kept-answer e secret id' kept)
            (Written-Changes e secret kept.coherent w) in
        inr (s', rw (existing, deleted) refl, changes.coherent, Changes-Becomes e secret c changes)
  ]
    where
      s₀ : Store e
      s₀ = (load_plain e now secret id s).0

      kept : Kept e secret s s₀
      kept = load_plain-Kept e secret now id s c

      unread : (load_plain e now secret id s).1 ≡ err (stored not_exist)
      unread =
          load_plain-uncached e secret now id s c alive
          ∙ ap (map_err stored)
              (get-of_answer e secret id s no_rows (missing-answer now id s c alive h))

      existing :
          after
            (load_plain e now secret id s)
            (λ plain. lift (map_err undecodable (to_message plain)))
          ≡ (s₀, err (stored not_exist))
      existing = rw unread refl
