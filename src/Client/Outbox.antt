-- ===== src/Client/Outbox.antt =====
-- client/client.go: `queueSignal`, `sendMessageToPeer` and `flushOutbox`.
pub mod Flush
pub mod Delivery
mod Tests
use end_to_end_chat.Base.{ℕ, Bytes, List, [], ◌∷◌, Option, none, some, bytes_eq, if◌then◌else◌}
use end_to_end_chat.Base.Outcome.{Outcome, ok, err, panic, map_err}
use end_to_end_chat.Base.Op.{return, lift, attempt}
use end_to_end_chat.Signal.Defs
use end_to_end_chat.Signal.Defs.{nil_uuid}
use end_to_end_chat.Signal.New.{new}
use end_to_end_chat.Store.Defs.{Draws, Env, StoreError}
use end_to_end_chat.Store.Outbox.{
  OutboxSignal, put_outbox, get_outbox, delete_entry, increment_retry,
}
use end_to_end_chat.Store.Peers.{accepted}
use end_to_end_chat.Message.Defs.{Message}
use end_to_end_chat.Message.Encode.{encode}
use end_to_end_chat.Message.Repository
use end_to_end_chat.Client.State.{
  ◌>>=◌, ◌>>◌, Client, Handler, Net, on_store, gets, reads, send_to, session_of, store_failed,
  repository_failed, bad_signal,
}
use end_to_end_chat.Client.Peers.{get_name, loaded_session}
use end_to_end_chat.Client.Sending.{with_id}

module _ (e : Env) where
  unfoldable pub queue_signal : Draws → Bytes → Bytes → Handler e (Unit {0})
  queue_signal d target sig = do
    _ ← on_store e store_failed λ c. put_outbox e d.nonce d.now d.fresh target sig c.private
    return tt

  -- The end of `sendMessageToPeer`, by the session that `Load` gives.
  unfoldable pub send_or_queue : Net → Draws → Bytes → Bytes → Option ℕ → Handler e (Unit {0})
  send_or_queue net d target sig none = queue_signal d target sig
  send_or_queue net d target sig (some h) = λ c.
      if bytes_eq (c.objects h).stat accepted
      then send_to e net h sig c
      else queue_signal d target sig c

  -- `d` is what storing the message draws, `d'` what queueing it draws.
  unfoldable pub send_message_to_peer : Net → Draws → Draws → Bytes → Message → Handler e (Unit {0})
  unfolding send_or_queue queue_signal
  send_message_to_peer net d d' target msg = do
    public ← gets e λ c. c.public
    own_name ← gets e (get_name e)
    _ ← attempt (
        on_store e repository_failed λ c.
          Repository.put e d.nonce d.now d.fresh c.private own_name
            (record msg { from_pub_key = public }))
    payload ← lift (encode (with_id e d.fresh (record msg { from_pub_key = public })))
    sig ← lift (map_err bad_signal (new Defs.message public nil_uuid payload))
    (λ c. send_or_queue net d' target sig (session_of e target c) c)

  -- An entry behind the attempt to send it: the loop goes on only if it was sent.
  unfoldable pub after_entry :
      Bytes → Handler e (Unit {0}) → Option (Unit {0}) → Handler e (Unit {0})
  after_entry id rest none = do
    _ ← attempt (on_store e store_failed λ c. increment_retry e id)
    return tt
  after_entry id rest (some _) = do
    _ ← attempt (on_store e store_failed λ c. delete_entry e id)
    rest

  unfoldable pub flush_entries : Net → ℕ → List OutboxSignal → Handler e (Unit {0})
  unfolding after_entry
  flush_entries net h [] = return tt
  flush_entries net h (entry ∷ entries) = do
    sent ← attempt (send_to e net h entry.signal_content)
    after_entry entry.id (flush_entries net h entries) sent

  -- The entries go out only on a session that is accepted.
  unfoldable pub flush_ready : Net → List OutboxSignal → Option ℕ → Handler e (Unit {0})
  unfolding flush_entries
  flush_ready net [] o = return tt
  flush_ready net (entry ∷ entries) none = return tt
  flush_ready net (entry ∷ entries) (some h) = λ c.
      if bytes_eq (c.objects h).stat accepted
      then flush_entries net h (entry ∷ entries) c
      else (c, ok tt)

  -- A list that cannot be read is logged.
  unfoldable pub flush_read :
      Net → Bytes → Outcome StoreError (List OutboxSignal) → Handler e (Unit {0})
  flush_read net key (ok entries) = λ c. flush_ready net entries (session_of e key c) c
  flush_read net key (err _) = return tt
  flush_read net key (panic p) = lift (panic p)

  unfoldable pub flush_outbox : Net → Bytes → Handler e (Unit {0})
  unfolding flush_read flush_ready
  flush_outbox net key c = flush_read net key (get_outbox e key c.private c.store) c
