-- ===== src/Client/Reassembly.antt =====
-- client/client.go: `handleFileChunk` at all chunks of a file, in order.
use end_to_end_chat.Base.{
  ℕ, ◌+◌, ◌≡◌, ◌≢◌, ◌<◌, ◌≤◌, refl, sym, ap, ◌∙◌, Bytes, List, [], ◌∷◌, ◌++◌, length, length-append,
  append_assoc, take-append_at, drop-append_at, bytes_eq, bytes_eq_refl, leb, if◌then◌else◌, Bool,
  true, false, some, none, pos, arith, ◌⊎◌,
}
use end_to_end_chat.Base.Dict.{Dict, lookup, insert, lookup-insert}
use end_to_end_chat.Base.Op.{return, after}
use end_to_end_chat.Base.Outcome.{Outcome, ok, err, panic}
use end_to_end_chat.Config.{file_id_len, nonce_size}
use end_to_end_chat.Signal.Defs.{Signal, IsUuid, nil_uuid}
use end_to_end_chat.Store.Defs.{Draws, Env, files, failed}
use end_to_end_chat.Store.Files.{get_file}
use end_to_end_chat.Store.Records.{NotStored}
use end_to_end_chat.Client.Codec.FileMeta.{FileMeta, decode_file_meta}
use end_to_end_chat.Client.State.{◌>>◌, Client, Handler, Warning, PendingFile, then_do}
use end_to_end_chat.Client.Finalize.{finalize_file-stored}
use end_to_end_chat.Client.Files.{
  handle_file_meta, handle_file_chunk, add_chunk, finalize_file, grown, is_complete,
}

-- What the chunks hold together.
abbrev pub joined : List (Draws × Bytes) → Bytes
joined [] = []
joined ((d, chunk) ∷ rest) = chunk ++ joined rest

module _ (e : Env) where
  -- Chunks of one file one behind the other; it ends with the first warning.
  unfoldable pub deliver : Bytes → List (Draws × Bytes) → Handler e (Unit {0})
  deliver id [] = return tt
  deliver id ((d, chunk) ∷ rest) = handle_file_chunk e d (id ++ chunk) >> deliver id rest

  abbrev with_pending : Client e → Dict PendingFile → Client e
  with_pending c m = record c { pending_files = m }

  handle_file_chunk-add :
      (d : Draws) (id chunk : Bytes) (pf : PendingFile) (c : Client e)
      → IsUuid id
      → lookup id c.pending_files ≡ some pf
      → handle_file_chunk e d (id ++ chunk) c ≡ add_chunk e d id chunk (some pf) c
  unfolding handle_file_chunk then_do
  handle_file_chunk-add d id chunk pf c fits there =
      rw
        (
          long,
          take-append_at file_id_len id chunk fits,
          drop-append_at file_id_len id chunk fits,
          there,
        )
        refl
    where
      long : leb file_id_len (length (id ++ chunk)) ≡ true
      long = ground (arith, length-append id chunk)

  -- A chunk that does not complete the file.
  add_chunk-more :
      (d : Draws) (id chunk : Bytes) (pf : PendingFile) (c : Client e)
      → is_complete (grown chunk pf) ≡ false
      → add_chunk e d id chunk (some pf) c
        ≡ (with_pending c (insert id (grown chunk pf) c.pending_files), ok tt)
  unfolding add_chunk then_do
  add_chunk-more d id chunk pf c more = rw more refl

  add_chunk-last :
      (d : Draws) (id chunk : Bytes) (pf : PendingFile) (c : Client e)
      → is_complete (grown chunk pf) ≡ true
      → add_chunk e d id chunk (some pf) c
        ≡ finalize_file e d id
            (grown chunk pf)
            (with_pending c (insert id (grown chunk pf) c.pending_files))
  unfolding add_chunk then_do
  add_chunk-last d id chunk pf c all = rw all refl

  after-return : (p : Client e × Outcome Warning (Unit {0})) → after p (λ _. return tt) ≡ p
  after-return (c, ok tt) = refl
  after-return (c, err w) = refl
  after-return (c, panic q) = refl

  grown-append : (a b : Bytes) (pf : PendingFile) → grown b (grown a pf) ≡ grown (a ++ b) pf
  grown-append a b pf =
      λ i. record { meta = pf.meta; received = counted i; buf = append_assoc pf.buf a b i }
    where
      counted : pf.received + length a + length b ≡ pf.received + length (a ++ b)
      counted = omega (arith, length-append a b)

  incomplete :
      (pf : PendingFile) (n : ℕ) → pf.meta.size ≡ pos n → pf.received < n → is_complete pf ≡ false
  incomplete pf n size short = rw size (ground arith)

  complete :
      (pf : PendingFile) (n : ℕ) → pf.meta.size ≡ pos n → n ≤ pf.received → is_complete pf ≡ true
  complete pf n size long = rw size (ground arith)

  -- A chunk that does not complete the file, and the chunks behind it.
  deliver-more :
      (id chunk : Bytes) (d : Draws) (rest : List (Draws × Bytes)) (n : ℕ) (pf : PendingFile)
      (c : Client e)
      → IsUuid id
      → pf.meta.size ≡ pos n
      → lookup id c.pending_files ≡ some pf
      → pf.received + length chunk < n
      → deliver id ((d, chunk) ∷ rest) c
        ≡ deliver id rest (with_pending c (insert id (grown chunk pf) c.pending_files))
  unfolding deliver then_do
  deliver-more id chunk d rest n pf c fits size there short =
      ap (λ (p : Client e × Outcome Warning (Unit {0})). after p (λ _. deliver id rest))
        (handle_file_chunk-add d id chunk pf c fits there
          ∙ add_chunk-more d id chunk pf c (incomplete (grown chunk pf) n size short))

  grown_there :
      (id : Bytes) (pf : PendingFile) (m : Dict PendingFile) → lookup id (insert id pf m) ≡ some pf
  grown_there id pf m =
      lookup-insert id id pf m
      ∙ ap (λ (b : Bool). if b then some pf else lookup id m) (bytes_eq_refl id)

  -- The chunks that reach the announced size only with the last one end with the file.
  deliver-finalize :
      (id : Bytes) (items : List (Draws × Bytes)) (d : Draws) (last : Bytes) (n : ℕ)
      (pf : PendingFile) (c : Client e)
      → IsUuid id
      → pf.meta.size ≡ pos n
      → lookup id c.pending_files ≡ some pf
      → pf.received + length (joined items) < n
      → n ≤ pf.received + length (joined items) + length last
      → (m : Dict PendingFile) × (deliver id (items ++ (d, last) ∷ []) c
          ≡ finalize_file e d id (grown (joined items ++ last) pf) (with_pending c m))
  unfolding deliver then_do
  deliver-finalize id [] d last n pf c fits size there short long = (
    insert id (grown last pf) c.pending_files,
    after-return (handle_file_chunk e d (id ++ last) c)
        ∙ handle_file_chunk-add d id last pf c fits there
        ∙ add_chunk-last d id last pf c (complete (grown last pf) n size (omega arith)),
  )
  deliver-finalize id ((d₀, chunk) ∷ rest) d last n pf c fits size there short long =
      let c₁ = with_pending c (insert id (grown chunk pf) c.pending_files) in
      let (m, delivered) =
        deliver-finalize id rest d last n (grown chunk pf) c₁ fits size
          (grown_there id (grown chunk pf) c.pending_files)
          (omega (arith, length-append chunk (joined rest)))
          (omega (arith, length-append chunk (joined rest))) in
      (
        m,
        deliver-more id chunk d₀ (rest ++ (d, last) ∷ []) n pf c fits size there
              (omega (arith, length-append chunk (joined rest)))
            ∙ delivered
            ∙ ap (λ (q : PendingFile). finalize_file e d id q (with_pending c m))
                (grown-append chunk (joined rest ++ last) pf
                  ∙ ap (λ (b : Bytes). grown b pf) (sym (append_assoc chunk (joined rest) last))),
      )

  -- A file that its sender announces under an id that is not nil, and whose chunks reach the
  -- announced size only with the last one, in order, under a nonce of 12 bytes: no step ends with a
  -- warning and the transfer is over at the end. Either the contents of the chunks together can be
  -- read as the file wherever the database answers, or the database refuses the row of this file and
  -- the store is as it was.
  pub deliver-stored :
      (sig : Signal) (key : Bytes) (meta : FileMeta) (items : List (Draws × Bytes)) (d : Draws)
      (last : Bytes) (n : ℕ) (c : Client e)
      → IsUuid sig.id
      → sig.id ≢ nil_uuid
      → sig.from ≡ key
      → decode_file_meta sig.content ≡ ok meta
      → meta.size ≡ pos n
      → length (joined items) < n
      → n ≤ length (joined items) + length last
      → length d.nonce ≡ nonce_size
      → (c' : Client e) × ((handle_file_meta e sig key >> deliver sig.id (items ++ (d, last) ∷ []))
            c
          ≡ (c', ok tt))
        × (lookup sig.id c'.pending_files ≡ none)
        × (((c'.store ≡ c.store) × NotStored e c.private sig.id (joined items ++ last) c.store)
            ⊎ (e.db.select_row c'.store.tables files sig.id ≢ failed
                → get_file e c.private sig.id c'.store ≡ ok (joined items ++ last)))
  unfolding handle_file_meta then_do
  deliver-stored sig key meta items d last n c fits known sender announced size short long nonce =
      let new : PendingFile = record { meta = meta; received = 0; buf = [] } in
      let c₁ = with_pending c (insert sig.id new c.pending_files) in
      let (m, delivered) =
        deliver-finalize sig.id items d last n new c₁ fits size
          (grown_there sig.id new c.pending_files) (omega arith) (omega arith) in
      let (c', ended, over, stored) =
        finalize_file-stored e d sig.id (grown (joined items ++ last) new) (with_pending c₁ m) known
          (omega (arith, length-append (joined items) last)) nonce in
      (c', rw (sent, announced) (delivered ∙ ended), over, stored)
    where
      sent : bytes_eq sig.from key ≡ true
      sent = ap (bytes_eq sig.from) (sym sender) ∙ bytes_eq_refl sig.from
