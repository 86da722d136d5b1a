-- ===== src/Message/Repository/Invariant.antt =====
-- message/message.go: every operation of the repository keeps the cache coherent, whatever it ends
-- with, for whatever message.
use end_to_end_chat.Base.{ℕ, pos, ◌≡◌, refl, subst, Bytes, length, inl, inr, Option, none, some}
use end_to_end_chat.Base.Outcome.{Outcome, ok, err, panic, map_err}
use end_to_end_chat.Base.Op.{Op, after, forgive, lift, attempt, wrap}
use end_to_end_chat.Config.{nonce_size}
use end_to_end_chat.Store.Defs.{Env, Store, StoreError}
use end_to_end_chat.Store.Chats
use end_to_end_chat.Store.Chats.{put_with_id}
use end_to_end_chat.Store.Writes.{answer, put_with_id-Written, delete-Written}
use end_to_end_chat.Message.Defs.{Message}
use end_to_end_chat.Message.Encode.{encode}
use end_to_end_chat.Message.Decode.{to_message}
use end_to_end_chat.Message.Repository.{
  RepositoryError, stored, undecodable, put, get, update, delete, load_plain, stored_id,
  keep_created, delete_attachments,
}
use end_to_end_chat.Message.Repository.Coherent.{Coherent, Coherent-Written}
use end_to_end_chat.Message.Repository.Changes.{Changes, Written-Changes, Changes-index_and_cache}
use end_to_end_chat.Message.Repository.Loads.{load_plain-Kept, get-Kept, after-lift_state}
use end_to_end_chat.Message.Repository.Deletes.{delete_files-Coherent}

module _ (e : Env) (secret : Bytes) where
  forgive-state : {S E A : Type 0} (p : S × Outcome E A) → (forgive p).0 ≡ p.0
  forgive-state (s, ok a) = refl
  forgive-state (s, err w) = refl
  forgive-state (s, panic q) = refl

  -- The store behind a step, once the step before it has left a coherent one.
  after-Coherent :
      {E A B : Type 0} (p : Store e × Outcome E A) (f : A → Op (Store e) E B)
      → Coherent e secret p.0
      → ((a : A) (s : Store e) → Coherent e secret s → Coherent e secret (f a s).0)
      → Coherent e secret (after p f).0
  after-Coherent (s, ok a) f c k = k a s c
  after-Coherent (s, err x) f c k = c
  after-Coherent (s, panic q) f c k = c

  -- What is written of a text is cached only where it has been written.
  written-Coherent :
      {B : Type 0} (nonce : Bytes) (now : ℕ) (id plain : Bytes)
      (f : Unit {0} → Op (Store e) RepositoryError B) (s : Store e)
      → length nonce ≡ nonce_size
      → ((s' : Store e) → Changes e secret s s' id (ok plain) → Coherent e secret (f tt s').0)
      → Coherent e secret s
      → Coherent e secret (after (wrap stored (put_with_id e nonce now id plain secret) s) f).0
  written-Coherent nonce now id plain f s h k c =
      elim (put_with_id-Written e nonce now id plain secret s h) [
        | inl gone ↦ rw gone c
        | inr (s', a, written, w, back) ↦
            rw written (k s' (subst (Changes e secret s s' id) back (Written-Changes e secret c w)))
      ]

  -- Putting any message, under a nonce of 12 bytes, keeps the cache coherent.
  pub put-Coherent :
      (nonce : Bytes) (now : ℕ) (fresh from_name : Bytes) (msg : Message) (s : Store e)
      → length nonce ≡ nonce_size
      → Coherent e secret s
      → Coherent e secret (put e nonce now fresh secret from_name msg s).0
  unfolding put
  put-Coherent nonce now fresh from_name msg s h c =
      after-Coherent (s, encode msg) _ c
        λ plain t d.
          written-Coherent nonce now (stored_id fresh msg) plain _ t h
            (λ s' changes.
              (Changes-index_and_cache e secret now from_name
                (record msg { id = stored_id fresh msg }) changes).coherent)
            d

  pub get-Coherent :
      (now : ℕ) (id : Bytes) (s : Store e)
      → Coherent e secret s
      → Coherent e secret (get e now secret id s).0
  get-Coherent now id s c = (get-Kept e secret now id s c).coherent

  updated-Coherent :
      (nonce : Bytes) (now : ℕ) (id plain : Bytes)
      (f : Unit {0} → Op (Store e) RepositoryError (Unit {0})) (s : Store e)
      (r : Outcome StoreError (Unit {0}))
      → Chats.exists e (answer e id s) ≡ r
      → length nonce ≡ nonce_size
      → ((s' : Store e) → Changes e secret s s' id (ok plain) → Coherent e secret (f tt s').0)
      → Coherent e secret s
      → Coherent e secret (after (wrap stored (Chats.update e nonce now id plain secret) s) f).0
  unfolding Chats.update
  updated-Coherent nonce now id plain f s (ok _) q h k c =
      rw q (written-Coherent nonce now id plain f s h k c)
  updated-Coherent nonce now id plain f s (err x) q h k c = rw q c
  updated-Coherent nonce now id plain f s (panic p) q h k c = rw q c

  pub update-Coherent :
      (nonce : Bytes) (now : ℕ) (id from_name : Bytes) (msg : Message) (s : Store e)
      → length nonce ≡ nonce_size
      → Coherent e secret s
      → Coherent e secret (update e nonce now secret id from_name msg s).0
  unfolding update
  update-Coherent nonce now id from_name msg s h c =
      after-Coherent (attempt (get e now secret id) s) _
        (rw (forgive-state (get e now secret id s)) (get-Coherent now id s c))
        λ existing t d.
          after-Coherent (t, encode _) _ d
            λ plain u d'.
              updated-Coherent nonce now id plain _ u (Chats.exists e (answer e id u)) refl h
                (λ s' changes.
                  (Changes-index_and_cache e secret now from_name
                    (record (keep_created e msg existing) { updated_at = pos now })
                    changes).coherent)
                d'

  deleted-Coherent :
      (o : Option Message) (s : Store e)
      → Coherent e secret s
      → Coherent e secret (delete_attachments e o s)
  deleted-Coherent none s c = c
  deleted-Coherent (some msg) s c = delete_files-Coherent e secret msg.attachments c

  pub delete-Coherent :
      (now : ℕ) (id : Bytes) (s : Store e)
      → Coherent e secret s
      → Coherent e secret (delete e now secret id s).0
  unfolding delete
  delete-Coherent now id s c =
      after-Coherent
        (forgive (
          after (load_plain e now secret id s)
            (λ plain. lift (map_err undecodable (to_message plain)))))
        _
        (rw
          (
            forgive-state _,
            after-lift_state (load_plain e now secret id s)
                (λ plain. map_err undecodable (to_message plain)),
          )
          (load_plain-Kept e secret now id s c).coherent)
        λ existing t d. elim (delete-Written e id (delete_attachments e existing t)) [
          | inl gone ↦ rw gone (deleted-Coherent existing t d)
          | inr (s', deleted, w) ↦
              rw deleted (Coherent-Written e secret (deleted-Coherent existing t d) w)
        ]
