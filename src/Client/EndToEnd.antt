-- ===== src/Client/EndToEnd.antt =====
-- client/client.go and client/handlers.go: a message on its way from one client to another.
mod Tests
use end_to_end_chat.Base.{
  ℕ, ◌≡◌, ◌≢◌, ◌<◌, ◌^◌, refl, sym, ap, ◌∙◌, Bytes, [], ◌∷◌, length, append-nil, bytes_eq,
  bytes_eq-ne, ◌==◌, if◌then◌else◌, Bool, true, arith, inl, inr, ◌⊎◌, subst,
}
use end_to_end_chat.Base.Outcome.{Outcome, ok, map_err, ok-injective}
use end_to_end_chat.Config.{nonce_size}
use end_to_end_chat.Wire.BigEndian.{put_be}
use end_to_end_chat.Signal.Defs
use end_to_end_chat.Signal.Defs.{Signal, IsKey, IsUuid, marker, nil_uuid}
use end_to_end_chat.Signal.New.{new}
use end_to_end_chat.Signal.Parse.{parse}
use end_to_end_chat.Signal.RoundTrip.{envelope, new-layout, parse-new}
use end_to_end_chat.Store.Defs.{Draws, Env, Store}
use end_to_end_chat.Store.Peers.{accepted}
use end_to_end_chat.Message.Defs.{Message, IsEncodable}
use end_to_end_chat.Message.Layout.{message_layout, encode-layout}
use end_to_end_chat.Message.RoundTrip.{to_message-layout}
use end_to_end_chat.Message.Repository.{stored_id}
use end_to_end_chat.Message.Repository.Coherent.{Coherent}
use end_to_end_chat.Message.Repository.Changes.{Becomes}
use end_to_end_chat.Message.Repository.Puts.{NotWritten, put-Becomes}
use end_to_end_chat.Client.RateLimit.{MsgLimiter, allow}
use end_to_end_chat.Client.Session.Defs.{Session}
use end_to_end_chat.Client.Session.Cipher.{decrypt, send}
use end_to_end_chat.Client.Session.Channel.{
  Linked, packet, after_receiving, encrypt-Linked, decrypt-Linked,
}
use end_to_end_chat.Client.State.{
  Client, Net, Warning, then_do, on_store, set_object, send_to, session_failed,
}
use end_to_end_chat.Client.Peers.{get_name}
use end_to_end_chat.Client.Signals.{handle_message, handle_signal, handle_type}
use end_to_end_chat.Client.Dispatch.{
  receive, decrypted_by, handle_decrypted, handle_envelope, check_rate, limited,
}
use end_to_end_chat.Client.Arrivals.{signed, handle_message-Becomes}
use end_to_end_chat.Client.Sending.{send_message}

module _ (e : Env) where
  pub same_object : (h : ℕ) → (h == h) ≡ true
  same_object h = ground arith

  pub receive-plain :
      (net : Net) (d : Draws) (input plain key : Bytes) (h : ℕ) (s : Session) (c : Client e)
      → decrypt e.crypto (c.objects h) input ≡ (s, ok plain)
      → receive e net d input h key c ≡ handle_decrypted e net d plain h key (set_object e h s c)
  unfolding receive decrypted_by then_do
  receive-plain net d input plain key h s c q = rw q refl

  pub handle_decrypted-parsed :
      (net : Net) (d : Draws) (rest key : Bytes) (h : ℕ) (sig : Signal) (c : Client e)
      → parse (marker ∷ rest) ≡ ok sig
      → handle_decrypted e net d (marker ∷ rest) h key c ≡ handle_envelope e net d sig h key c
  unfolding handle_decrypted then_do
  handle_decrypted-parsed net d rest key h sig c q = rw q refl

  abbrev admitted : ℕ → MsgLimiter → Client e → Client e
  admitted h l c = set_object e h (record (c.objects h) { msg_limiter = l }) c

  handle_envelope-admitted :
      (net : Net) (d : Draws) (sig : Signal) (key : Bytes) (h : ℕ) (l : MsgLimiter) (c : Client e)
      → bytes_eq (c.objects h).stat accepted ≡ true
      → allow {E = Warning} (c.objects h).msg_limiter d.now ≡ ok (l, true)
      → handle_envelope e net d sig h key c ≡ handle_signal e net d sig key (admitted h l c)
  unfolding handle_envelope check_rate limited then_do
  handle_envelope-admitted net d sig key h l c stat q = rw (stat, q) refl

  handle_signal-message :
      (net : Net) (d : Draws) (key : Bytes) (sig : Signal)
      → sig.typ ≡ Defs.message
      → handle_signal e net d sig key ≡ handle_message e d sig key
  unfolding handle_signal handle_type bytes_eq
  handle_signal-message net d key sig q = rw q refl

  -- The envelope of a message.
  abbrev pub message_signal : Bytes → Message → Signal
  message_signal from msg = record {
    typ = Defs.message;
    from = from;
    id = nil_uuid;
    content = message_layout msg;
  }

  abbrev pub message_wire : Bytes → Message → Bytes
  message_wire from msg = envelope Defs.message from nil_uuid (message_layout msg)

  message_wire-new :
      (from : Bytes) (msg : Message)
      → IsKey from
      → length (message_layout msg) < 2 ^ 32
      → (new Defs.message from nil_uuid (message_layout msg) ≡ ok (message_wire from msg))
        × (parse (message_wire from msg) ≡ ok (message_signal from msg))
  message_wire-new from msg k fits =
      let made =
        new-layout Defs.message from nil_uuid (message_layout msg) (omega arith) fits k refl in
      let (wire, also, parsed) =
        parse-new Defs.message from nil_uuid (message_layout msg) [] (omega arith) fits k refl in
      (made, ap parse (ok-injective (sym made ∙ also) ∙ sym (append-nil wire)) ∙ parsed)

  -- A received packet with a message reaches the handler of messages.
  receive-message :
      (net : Net) (d : Draws) (input from : Bytes) (h : ℕ) (s : Session) (l : MsgLimiter)
      (msg : Message) (c : Client e)
      → IsKey from
      → length (message_layout msg) < 2 ^ 32
      → decrypt e.crypto (c.objects h) input ≡ (s, ok (message_wire from msg))
      → bytes_eq s.stat accepted ≡ true
      → allow {E = Warning} s.msg_limiter d.now ≡ ok (l, true)
      → receive e net d input h from c
        ≡ handle_message e d (message_signal from msg) from (admitted h l (set_object e h s c))
  unfolding set_object put_be
  receive-message net d input from h s l msg c k fits opened stat allowed =
      let c₁ = set_object e h s c in
      receive-plain net d input (message_wire from msg) from h s c opened
      ∙ handle_decrypted-parsed net d _ from h (message_signal from msg) c₁
          (message_wire-new from msg k fits).1
      ∙ handle_envelope-admitted net d (message_signal from msg) from h l c₁
          (ap (λ (b : Bool). bytes_eq (if b then s else c.objects h).stat accepted) (same_object h)
            ∙ stat)
          (ap (λ (b : Bool). allow {E = Warning} (if b then s else c.objects h).msg_limiter d.now)
              (same_object h)
            ∙ allowed)
      ∙ ap (λ (m : Client e → Client e × Outcome Warning (Unit {0})). m (admitted h l c₁))
          (handle_signal-message net d from (message_signal from msg) refl)

  -- `sendMessage` ends with the envelope on the connection, whether or not the message was stored.
  send_message-send :
      (net : Net) (d : Draws) (h : ℕ) (msg : Message) (c : Client e)
      → length d.nonce ≡ nonce_size
      → IsEncodable (signed c.public msg)
      → length (message_layout (signed c.public msg)) < 2 ^ 32
      → msg.id ≢ nil_uuid
      → Coherent e c.private c.store
      → (s : Store e) × (send_message e net h d msg c
          ≡ send_to e net h (message_wire c.public (signed c.public msg)) (record c { store = s }))
  unfolding send_message on_store then_do
  send_message-send net d h msg c nonce fits short known coherent =
      elim (put-Becomes e d.nonce d.now d.fresh c.private (get_name e c) m c.store nonce fits
        coherent) [
          | inl gone ↦ (
            c.store,
            rw (gone, bytes_eq-ne msg.id nil_uuid known, encode-layout {E = Warning} m fits, made)
                refl,
          )
          | inr (s', stored, _, _) ↦ (
            s',
            rw (stored, bytes_eq-ne msg.id nil_uuid known, encode-layout {E = Warning} m fits, made)
                refl,
          )
        ]
    where
      m : Message
      m = signed c.public msg

      made : new Defs.message c.public nil_uuid (message_layout m) ≡ ok (message_wire c.public m)
      made = (message_wire-new c.public m fits.from_fits short).0

  send_to-Linked :
      (net : Net) (h n : ℕ) (plain : Bytes) (b : Session) (c : Client e)
      (l : Linked (c.objects h) b n)
      → (send_to e net h plain c).1 ≡ map_err session_failed (net h (packet e.crypto l.key n plain))
  unfolding send_to send
  send_to-Linked net h n plain b c l = rw (encrypt-Linked e.crypto (c.objects h) b n plain l) refl

  -- What is written of a message on a session with this key and counter.
  abbrev pub written : Bytes → ℕ → Bytes → Message → Bytes
  written key n from msg = packet e.crypto key n (message_wire from (signed from msg))

  -- Alice sends a message with an id that is not nil and fields that fit to bob, whose session is
  -- linked to hers; both have coherent caches and nonces of 12 bytes. The outcome of `sendMessage` is
  -- what the connection says of one packet. Where bob has accepted her and his limiter lets it
  -- through, he receives this packet without an error: either his
  -- database refuses the row of this message and his store is as it was, or `Get` gives him the
  -- message from then on under its id, with the key of alice as its author, and every other message
  -- is what it was.
  pub receive-send_message :
      (net net' : Net) (d d' : Draws) (h k n : ℕ) (l : MsgLimiter) (msg : Message)
      (alice bob : Client e)
      → length d.nonce ≡ nonce_size
      → length d'.nonce ≡ nonce_size
      → IsEncodable (signed alice.public msg)
      → length (message_layout (signed alice.public msg)) < 2 ^ 32
      → msg.id ≢ nil_uuid
      → Coherent e alice.private alice.store
      → Coherent e bob.private bob.store
      → (linked : Linked (alice.objects h) (bob.objects k) n)
      → bytes_eq (bob.objects k).stat accepted ≡ true
      → allow {E = Warning} (bob.objects k).msg_limiter d'.now ≡ ok (l, true)
      → ((send_message e net h d msg alice).1
          ≡ map_err session_failed (net h (written linked.key n alice.public msg)))
        × ((bob' : Client e) × (receive e net' d'
                (written linked.key n alice.public msg)
                k
                alice.public
                bob
              ≡ (bob', ok tt))
            × (((bob'.store ≡ bob.store)
                  × NotWritten e bob.private msg.id (signed alice.public msg) bob.store)
                ⊎ (Coherent e bob.private bob'.store
                    × Becomes e bob.private bob.store bob'.store msg.id
                        (ok (signed alice.public msg)))))
  unfolding set_object after_receiving
  receive-send_message net net' d d' h k n l msg alice bob nonce nonce' fits short known clean
        clean' linked stat allowed =
      let (s, sends) = send_message-send net d h msg alice nonce fits short known clean in
      (
        ap (λ (p : Client e × Outcome Warning (Unit {0})). p.1) sends
            ∙ send_to-Linked net h n (message_wire alice.public m) (bob.objects k)
                (record alice { store = s }) linked,
        elim (handle_message-Becomes e d' (message_signal alice.public m) alice.public m bob₁ nonce'
            refl (to_message-layout m fits) fits clean') [
              | inl (gone, refused) ↦ (
                bob₁,
                arrives ∙ gone,
                inl (
                  refl,
                  subst (λ (id : Bytes). NotWritten e bob.private id m bob.store) own_id refused,
                ),
              )
              | inr (bob', stored, coherent, becomes) ↦ (
                bob',
                arrives ∙ stored,
                inr (
                  coherent,
                  subst
                      (λ (id : Bytes).
                        Becomes e bob.private bob.store bob'.store id (ok (record m { id = id })))
                      own_id becomes,
                ),
              )
            ],
      )
    where
      m : Message
      m = signed alice.public msg

      bob₁ : Client e
      bob₁ = admitted k l (set_object e k (after_receiving (bob.objects k)) bob)

      arrives :
          receive e net' d' (written linked.key n alice.public msg) k alice.public bob
          ≡ handle_message e d' (message_signal alice.public m) alice.public bob₁
      arrives =
          receive-message net' d' _ alice.public k _ l m bob fits.from_fits short
            (decrypt-Linked e.crypto (alice.objects h) (bob.objects k) n
              (message_wire alice.public m) linked)
            stat allowed

      own_id : stored_id d'.fresh m ≡ msg.id
      own_id = rw (bytes_eq-ne msg.id nil_uuid known) refl
