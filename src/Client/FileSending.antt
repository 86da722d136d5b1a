-- ===== src/Client/FileSending.antt =====
-- client/client.go: `sendFile`. The reader of the file is what its `Read` returns, up to the end.
pub mod Reads
pub mod Whole
mod Tests
use end_to_end_chat.Base.{
  ℕ, ◌==◌, ◌<◌, ◌≤◌, ◌-◌, ◌≡◌, refl, ap, ◌∙◌, arith, zero, suc, Bytes, List, [], ◌∷◌, ◌++◌, All,
  if◌then◌else◌, Option, none, some, length, length-drop, length-take, take, drop, ℤ,
}
use end_to_end_chat.Base.Outcome.{map_err}
use end_to_end_chat.Base.Op.{return, lift, attempt}
use end_to_end_chat.Signal.Defs.{file_meta}
use end_to_end_chat.Signal.New.{new}
use end_to_end_chat.Store.Defs.{Draws, Env}
use end_to_end_chat.Client.Codec.FileMeta.{FileMeta, encode_file_meta}
use end_to_end_chat.Client.State.{◌>>=◌, ◌>>◌, Client, Handler, Net, gets, send_to, bad_signal}
use end_to_end_chat.Client.Outbox.{queue_signal}

-- `Read` of a `bytes.Reader` into a buffer of `n` bytes, again and again, until `io.EOF`. It needs
-- no more turns than there are bytes.
unfoldable pub reads_of : ℕ → ℕ → Bytes → List Bytes
reads_of zero n input = []
reads_of (suc turns) n [] = []
reads_of (suc turns) n (x ∷ input) = take n (x ∷ input) ∷ reads_of turns n (drop n (x ∷ input))

abbrev pub concat : List Bytes → Bytes
concat [] = []
concat (chunk ∷ chunks) = chunk ++ concat chunks

-- `0x00`, the id and the bytes of a chunk.
abbrev pub chunk_packet : Bytes → Bytes → Bytes
chunk_packet id chunk = 0 ∷ (id ++ chunk)

module _ (e : Env) where
  -- A chunk that cannot be sent is queued for the peer that the handshake authenticated.
  unfoldable pub chunk_sent : Draws → ℕ → Bytes → Option (Unit {0}) → Handler e (Unit {0})
  chunk_sent d h packet none = λ c. queue_signal e d (c.objects h).peer.static_pub_key packet c
  chunk_sent d h packet (some _) = return tt

  -- What is read of the file: an empty read is passed over.
  unfoldable pub send_chunks : Net → ℕ → Bytes → List (Draws × Bytes) → Handler e (Unit {0})
  unfolding chunk_sent
  send_chunks net h id [] = return tt
  send_chunks net h id ((d, chunk) ∷ rest) =
      let others = send_chunks net h id rest in
      if length chunk == 0 then others else (do
        sent ← attempt (send_to e net h (chunk_packet id chunk))
        chunk_sent d h (chunk_packet id chunk) sent
        others)

  unfoldable pub send_file :
      Net → ℕ → Bytes → FileMeta → List (Draws × Bytes) → Handler e (Unit {0})
  unfolding send_chunks
  send_file net h id meta reads = do
    meta_raw ← lift (encode_file_meta meta)
    public ← gets e λ c. c.public
    sig ← lift (map_err bad_signal (new file_meta public id meta_raw))
    send_to e net h sig
    send_chunks net h id reads
