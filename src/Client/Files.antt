-- ===== src/Client/Files.antt =====
-- client/client.go: files that arrive in chunks, `handleFileChunk` and `finalizeFile`.
use end_to_end_chat.Base.{
  ℕ, ◌+◌, Bytes, [], ◌∷◌, ◌++◌, Bool, true, leb, if◌then◌else◌, Option, none, some, length, take,
  drop, bytes_eq, ℤ, pos, negsuc,
}
use end_to_end_chat.Base.Dict.{lookup, insert, remove}
use end_to_end_chat.Base.Outcome.{err, map_err, guard}
use end_to_end_chat.Base.Op.{return, lift, modify, attempt}
use end_to_end_chat.Config.{file_id_len}
use end_to_end_chat.Signal.Defs.{Signal}
use end_to_end_chat.Store.Defs.{Draws, Env}
use end_to_end_chat.Message.Attachments.{store_attachments}
use end_to_end_chat.Client.Codec.FileMeta.{decode_file_meta}
use end_to_end_chat.Client.State.{
  ◌>>=◌, ◌>>◌, Handler, PendingFile, on_store, key_mismatch, bad_file_meta, store_failed,
  chunk_too_short, unknown_transfer,
}

-- `n >= size`
abbrev pub reaches : ℕ → ℤ → Bool
reaches n (pos size) = leb size n
reaches n (negsuc _) = true

-- `pf.received >= pf.meta.Size`
abbrev pub is_complete : PendingFile → Bool
is_complete pf = reaches pf.received pf.meta.size

-- The entry of a transfer behind a chunk, which the map shares with the handler.
abbrev pub grown : Bytes → PendingFile → PendingFile
grown chunk pf = record pf { buf = pf.buf ++ chunk; received = pf.received + length chunk }

module _ (e : Env) where
  -- The announcement of a file.
  unfoldable pub handle_file_meta : Signal → Bytes → Handler e (Unit {0})
  handle_file_meta sig key = do
    lift (guard (bytes_eq sig.from key) key_mismatch)
    meta ← lift (map_err bad_file_meta (decode_file_meta sig.content))
    modify λ c. record c {
      pending_files =
          insert sig.id (record { meta = meta; received = 0; buf = [] }) c.pending_files;
    }

  unfoldable pub finalize_file : Draws → Bytes → PendingFile → Handler e (Unit {0})
  finalize_file d id pf = do
    -- The entry is deleted at the end in any case, by `defer`.
    _ ← attempt (
        on_store e store_failed λ c. store_attachments e c.private [] (
          (
            d,
            record {
              id = id;
              name = pf.meta.name;
              mime_type = pf.meta.mime;
              size = pf.meta.size;
              contents = pf.buf;
            },
          )
          ∷ []))
    modify λ c. record c { pending_files = remove id c.pending_files }

  unfoldable pub add_chunk : Draws → Bytes → Bytes → Option PendingFile → Handler e (Unit {0})
  add_chunk d id chunk none = lift (err unknown_transfer)
  add_chunk d id chunk (some pf) = do
    modify λ c. record c { pending_files = insert id (grown chunk pf) c.pending_files }
    (if is_complete (grown chunk pf) then finalize_file d id (grown chunk pf) else return tt)

  unfoldable pub handle_file_chunk : Draws → Bytes → Handler e (Unit {0})
  unfolding add_chunk
  handle_file_chunk d plain = do
    lift (guard (leb file_id_len (length plain)) chunk_too_short)
    (λ c.
        add_chunk d (take file_id_len plain) (drop file_id_len plain)
          (lookup (take file_id_len plain) c.pending_files) c)
