-- ===== src/Client/FileSending/Whole.antt =====
-- client/client.go and client/api.go: an attachment goes out whole.
use end_to_end_chat.Base.{
  ℕ, ◌+◌, ◌≡◌, ◌<◌, ◌≤◌, refl, sym, ap, ◌∙◌, arith, Bytes, List, [], ◌∷◌, ◌++◌, map, append_assoc,
  append-nil, All, length, ◌==◌, false,
}
use end_to_end_chat.Base.Outcome.{ok}
use end_to_end_chat.Config.{file_chunk_size}
use end_to_end_chat.Signal.Defs.{IsKey, IsUuid, file_meta}
use end_to_end_chat.Signal.Parse.{parse}
use end_to_end_chat.Signal.RoundTrip.{parse-new}
use end_to_end_chat.Store.Defs.{Draws, Env}
use end_to_end_chat.Message.Defs.{Attachment}
use end_to_end_chat.Client.Codec.FileMeta.{IsEncodable, decode_file_meta, file_meta_wire}
use end_to_end_chat.Client.State.{Client, Net, Warning, then_do}
use end_to_end_chat.Client.Reach.{IsKeyed, send_to-open}
use end_to_end_chat.Client.FileSending.{
  reads_of, concat, chunk_packet, send_chunks, chunk_sent, send_file,
}
use end_to_end_chat.Client.FileSending.Reads.{reads_of-whole}
use end_to_end_chat.Client.Api.Messages.{file_reads, limited, send_attachment}

-- What goes out of the chunks of a file: a zero byte, the id and the chunk.
abbrev pub packets : ℕ → Bytes → List Bytes → List (ℕ × Bytes)
packets h id chunks = map (λ chunk. (h, 0 ∷ (id ++ chunk))) chunks

module _ (e : Env) (net : Net) (takes : (h : ℕ) (p : Bytes) → net h p ≡ ok tt) where
  send_chunks-reaches :
      (h : ℕ) (id : Bytes) (draw : ℕ → Draws) (n : ℕ) (chunks : List Bytes) (c : Client e)
      → IsKeyed e c h
      → All (λ (chunk : Bytes). 0 < length chunk) chunks
      → (c' : Client e) × (send_chunks e net h id (file_reads draw n chunks) c ≡ (c', ok tt))
        × (c'.sent ≡ c.sent ++ packets h id chunks)
        × (c'.store ≡ c.store)
  unfolding send_chunks chunk_sent then_do
  send_chunks-reaches h id draw n [] c keyed sized = (c, refl, sym (append-nil c.sent), refl)
  send_chunks-reaches h id draw n (chunk ∷ chunks) c (aes, held, good) sized =
      let (c₁, sent, log, store, steady) =
        send_to-open e net takes h (chunk_packet id chunk) c (aes, held, good) in
      let (c', run, rest, same) =
        send_chunks-reaches h id draw (n + 1) chunks c₁ (aes, steady.keys h ∙ held, good) sized.1 in
      (
        c',
        rw (filled (length chunk) sized.0, sent) run,
        rest
            ∙ ap (λ l. l ++ packets h id chunks) log
            ∙ append_assoc c.sent ((h, chunk_packet id chunk) ∷ []) (packets h id chunks),
        same ∙ store,
      )
    where
      filled : (k : ℕ) → 0 < k → (k == 0) ≡ false
      filled k lt = ground arith

  -- A connection takes every packet, and the session has an AES key; the client has a key of 32
  -- bytes, and the attachment an id of 16 bytes and a name, a type and a size that fit. Then sending
  -- it succeeds, and it sends one packet that announces it, and behind it as many bytes of its
  -- contents as its size says, or all of them where there are fewer, in chunks of at most 256 KiB,
  -- none of them empty, in order and whole; the store stays as it was.
  pub send_attachment-whole :
      (h : ℕ) (draw : ℕ → Draws) (d : Draws) (a : Attachment) (c : Client e)
      → IsKeyed e c h
      → IsKey c.public
      → IsUuid a.id
      → IsEncodable (record { name = a.name; size = a.size; mime = a.mime_type })
      → (c' : Client e) × (sig wire : Bytes) × (chunks : List Bytes) × (send_attachment e net h draw
            (d, a)
            c
          ≡ (c', ok tt))
        × (c'.sent ≡ c.sent ++ (h, sig) ∷ packets h a.id chunks)
        × (c'.store ≡ c.store)
        × (parse sig ≡ ok (record { typ = file_meta; from = c.public; id = a.id; content = wire }))
        × (decode_file_meta wire ≡ ok (record { name = a.name; size = a.size; mime = a.mime_type }))
        × (concat chunks ≡ limited a.size a.contents)
        × All (λ (chunk : Bytes). (0 < length chunk) × (length chunk ≤ file_chunk_size)) chunks
  unfolding send_file then_do
  send_attachment-whole h draw d a c (aes, held, good) own id_fits fits =
      let (wire, encoded, long, decoded) =
        file_meta_wire (record { name = a.name; size = a.size; mime = a.mime_type }) fits
          {E = Warning} in
      let (sig, made, read) =
        parse-new file_meta c.public a.id wire [] (omega arith) long own id_fits in
      let (c₁, sent, log, store, steady) = send_to-open e net takes h sig c (aes, held, good) in
      let input = limited a.size a.contents in
      let chunks = reads_of (length input) file_chunk_size input in
      let (whole, sized) =
        reads_of-whole (length input) file_chunk_size input (omega arith) (omega arith) in
      let (c', run, rest, same) =
        send_chunks-reaches h a.id draw 0 chunks c₁ (aes, steady.keys h ∙ held, good)
          (filled chunks sized) in
      (
        c',
        sig,
        wire,
        chunks,
        rw (encoded, made, sent) run,
        rest
            ∙ ap (λ l. l ++ packets h a.id chunks) log
            ∙ append_assoc c.sent ((h, sig) ∷ []) (packets h a.id chunks),
        same ∙ store,
        rw append-nil at read,
        decoded,
        whole,
        sized,
      )
    where
      filled :
          (chunks : List Bytes)
          → All (λ (chunk : Bytes). (0 < length chunk) × (length chunk ≤ file_chunk_size)) chunks
          → All (λ (chunk : Bytes). 0 < length chunk) chunks
      filled [] sized = tt
      filled (chunk ∷ chunks) sized = (sized.0.0, filled chunks sized.1)
