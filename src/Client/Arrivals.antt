-- ===== src/Client/Arrivals.antt =====
-- client/client.go: `handleSignal` at a message that arrives.
use end_to_end_chat.Base.{
  ◌≡◌, refl, sym, ap, ◌∙◌, Bytes, bytes_eq, bytes_eq_refl, true, if◌then◌else◌, inl, inr, ◌⊎◌,
  length,
}
use end_to_end_chat.Base.Outcome.{ok}
use end_to_end_chat.Config.{nonce_size}
use end_to_end_chat.Signal.Defs.{Signal, nil_uuid}
use end_to_end_chat.Store.Defs.{Draws, Env}
use end_to_end_chat.Message.Defs.{Message, IsEncodable}
use end_to_end_chat.Message.Decode.{to_message}
use end_to_end_chat.Message.Repository.Coherent.{Coherent}
use end_to_end_chat.Message.Repository.Changes.{Becomes}
use end_to_end_chat.Message.Repository.Puts.{NotWritten, put-Becomes, put-NotWritten}
use end_to_end_chat.Client.State.{Client, on_store, then_do}
use end_to_end_chat.Client.Peers.{display_name}
use end_to_end_chat.Client.Signals.{handle_message}

-- The message with the peer from which it came as the author.
abbrev pub signed : Bytes → Message → Message
signed key msg = record msg { from_pub_key = key }

module _ (e : Env) where
  -- A message whose sender is the peer of the session, with fields that fit and a nonce of 12
  -- bytes, in a store with a coherent cache: the handler ends without an error. Either the database
  -- refuses the row of this message, and the client is as it was; or `Get` gives the message from
  -- then on under its own id, or the fresh one where that is nil, with the peer as its author,
  -- whatever was stored under this id before, and every other message is what it was.
  pub handle_message-Becomes :
      (d : Draws) (sig : Signal) (key : Bytes) (msg : Message) (c : Client e)
      → length d.nonce ≡ nonce_size
      → sig.from ≡ key
      → to_message sig.content ≡ ok msg
      → IsEncodable (signed key msg)
      → Coherent e c.private c.store
      → ((handle_message e d sig key c ≡ (c, ok tt))
          × NotWritten e c.private
              (if bytes_eq msg.id nil_uuid then d.fresh else msg.id)
              (signed key msg)
              c.store)
        ⊎ ((c' : Client e) × (handle_message e d sig key c ≡ (c', ok tt))
            × Coherent e c.private c'.store
            × Becomes e c.private c.store c'.store
                (if bytes_eq msg.id nil_uuid then d.fresh else msg.id)
                (ok (record (signed key msg) {
                  id = if bytes_eq msg.id nil_uuid then d.fresh else msg.id;
                })))
  unfolding handle_message then_do on_store
  handle_message-Becomes d sig key msg c nonce sender text fits coherent =
      elim (put-Becomes e d.nonce d.now d.fresh c.private (display_name e key c) (signed key msg)
        c.store nonce fits coherent) [
          | inl gone ↦ inl (
            rw (sent, text, gone) refl,
            put-NotWritten e d.nonce d.now d.fresh c.private (display_name e key c) (signed key msg)
                c.store nonce fits gone,
          )
          | inr (s', written, clean, becomes) ↦
              inr (record c { store = s' }, rw (sent, text, written) refl, clean, becomes)
        ]
    where
      sent : bytes_eq sig.from key ≡ true
      sent = ap (bytes_eq sig.from) (sym sender) ∙ bytes_eq_refl sig.from
