-- ===== src/Client/Finalize.antt =====
-- client/client.go: `finalizeFile` stores the file.
use end_to_end_chat.Base.{
  ◌≡◌, ◌≢◌, ◌<◌, refl, ap, ◌∙◌, Bytes, [], ◌∷◌, length, bytes_eq_refl, bytes_eq-ne, if◌then◌else◌,
  Bool, none, arith, inl, inr, ◌⊎◌,
}
use end_to_end_chat.Base.Dict.{lookup, remove, lookup-remove}
use end_to_end_chat.Base.Op.{return, after}
use end_to_end_chat.Base.Outcome.{ok}
use end_to_end_chat.Config.{nonce_size}
use end_to_end_chat.Signal.Defs.{nil_uuid}
use end_to_end_chat.Store.Defs.{Draws, Env, Store, files, failed}
use end_to_end_chat.Store.Files.{put_file, get_file}
use end_to_end_chat.Store.Records.{NotStored, get_file-put_file, put_file-NotStored}
use end_to_end_chat.Message.Attachments.{store_attachments, store_contents, emptied}
use end_to_end_chat.Message.Defs.{Attachment}
use end_to_end_chat.Client.State.{Client, PendingFile, then_do, on_store}
use end_to_end_chat.Client.Files.{finalize_file}

-- What `finalizeFile` gives to `StoreAttachments`.
abbrev received_file : Bytes → PendingFile → Attachment
received_file id pf = record {
  id = id;
  name = pf.meta.name;
  mime_type = pf.meta.mime;
  size = pf.meta.size;
  contents = pf.buf;
}

module _ (e : Env) where
  store_contents-put :
      (d : Draws) (secret msg_id : Bytes) (a : Attachment) (contents : Bytes) (s : Store e)
      → a.id ≢ nil_uuid
      → 0 < length contents
      → store_contents e d secret msg_id a contents s
        ≡ after
            (put_file e d.nonce d.now secret a.id msg_id contents s)
            (λ _. return (emptied a.id a))
  unfolding store_contents
  store_contents-put d secret msg_id a [] s known some_bytes = absurd (omega arith)
  store_contents-put d secret msg_id a (x ∷ contents) s known some_bytes =
      rw (bytes_eq-ne a.id nil_uuid known) refl

  -- The complete file is stored, or the statement fails, and the transfer is over.
  pub finalize_file-stored :
      (d : Draws) (id : Bytes) (pf : PendingFile) (c : Client e)
      → id ≢ nil_uuid
      → 0 < length pf.buf
      → length d.nonce ≡ nonce_size
      → (c' : Client e) × (finalize_file e d id pf c ≡ (c', ok tt))
        × (lookup id c'.pending_files ≡ none)
        × (((c'.store ≡ c.store) × NotStored e c.private id pf.buf c.store)
            ⊎ (e.db.select_row c'.store.tables files id ≢ failed
                → get_file e c.private id c'.store ≡ ok pf.buf))
  unfolding finalize_file then_do on_store store_attachments
  finalize_file-stored d id pf c known some_bytes nonce =
      elim (get_file-put_file e d.nonce d.now c.private id [] pf.buf c.store nonce) [
        | inl gone ↦ (
          ended c.store,
          rw (put, gone) refl,
          over,
          inl (refl, put_file-NotStored e d.nonce d.now c.private id [] pf.buf c.store nonce gone),
        )
        | inr (s', stored, back) ↦ (ended s', rw (put, stored) refl, over, inr back)
      ]
    where
      ended : Store e → Client e
      ended s = record c { store = s; pending_files = remove id c.pending_files }

      put :
          store_contents e d c.private [] (received_file id pf) pf.buf c.store
          ≡ after
              (put_file e d.nonce d.now c.private id [] pf.buf c.store)
              (λ _. return (emptied id (received_file id pf)))
      put = store_contents-put d c.private [] (received_file id pf) pf.buf c.store known some_bytes

      over : lookup id (remove id c.pending_files) ≡ none
      over =
          lookup-remove id id c.pending_files
          ∙ ap (λ (b : Bool). if b then none else lookup id c.pending_files) (bytes_eq_refl id)
