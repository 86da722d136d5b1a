-- ===== src/Client/Session/Agreement.antt =====
-- client/session.go: two clients that run the handshake with one another agree on the keys.
use end_to_end_chat.Base.{
  ◌^◌, ◌<◌, ◌≡◌, ◌≢◌, refl, sym, ap, ◌∙◌, Bool, true, false, Bytes, [], ◌++◌, some, arith, length,
  bytes_eq_refl, bytes_eq-ne, append-nil, subst,
}
use end_to_end_chat.Base.Outcome.{Outcome, ok, err, panic, ◌>>=◌}
use end_to_end_chat.Signal.Defs.{ascii, key_exchange, IsKey}
use end_to_end_chat.Signal.Parse.{parse}
use end_to_end_chat.Signal.RoundTrip.{parse-new}
use end_to_end_chat.Wire.Writer.{layout_size}
use end_to_end_chat.Client.Crypto.{Crypto, is_aes_key}
use end_to_end_chat.Client.Codec.KeyExchange.{
  KeyExchange, decode_key_exchange, IsEncodable, layout, encode_key_exchange-layout, decode_layout,
}
use end_to_end_chat.Client.Session.Defs.{Session, SessionError}
use end_to_end_chat.Keys.Defs.{nil_key}
use end_to_end_chat.Signal.Defs.{nil_uuid}
use end_to_end_chat.Client.Session.Handshake.{
  key_exchange_payload, do_recv, verify_peer, derive_keys, handshake,
}
use end_to_end_chat.Client.Session.Channel.{Linked}

-- A session of a client whose key pair belongs together, before the handshake.
pub record IsReady (c : Crypto) (s : Session) : Type 0 where
  pub own_key : s.our_static ≡ c.ed25519 s.our_seed
  pub not_nil : s.our_static ≢ nil_key
  pub name_fits : length s.our_name < 2 ^ 16

module _ (c : Crypto) where
  -- What a client sends in the handshake.
  abbrev pub offer : Session → Bytes → KeyExchange
  offer s our_key = record {
    pub_key = c.x25519 our_key;
    static_pub_key = s.our_static;
    client_name = s.our_name;
    signature = c.sign s.our_seed (c.x25519 our_key);
  }

  IsKey-static : (s : Session) → IsReady c s → IsKey s.our_static
  IsKey-static s h = ap length h.own_key ∙ c.length-ed25519 s.our_seed

  offer-IsEncodable : (s : Session) (our_key : Bytes) → IsReady c s → IsEncodable (offer s our_key)
  offer-IsEncodable s our_key h = record {
    pub_key_fits = c.length-x25519 our_key;
    static_fits = IsKey-static s h;
    name_fits = h.name_fits;
    signature_fits = omega (arith, c.length-sign s.our_seed (c.x25519 our_key));
  }

  layout-fits :
      (s : Session) (our_key : Bytes) → IsReady c s → length (layout (offer s our_key)) < 2 ^ 32
  layout-fits s our_key h = simp layout_size (
      omega (
        arith,
        c.length-x25519 our_key,
        IsKey-static s h,
        c.length-sign s.our_seed (c.x25519 our_key),
        h.name_fits,
      ))

  -- The bytes that a client sends, and what the other reads from them.
  offer_sent :
      (s : Session) (our_key : Bytes)
      → IsReady c s
      → (wire : Bytes) × (key_exchange_payload s
            (c.x25519 our_key)
            (c.sign s.our_seed (c.x25519 our_key))
          ≡ ok wire)
        × (do_recv (ok wire) ≡ ok (offer s our_key))
  unfolding key_exchange_payload do_recv
  offer_sent s our_key h =
      let (wire, sent, read) =
        parse-new key_exchange s.our_static nil_uuid (layout (offer s our_key)) [] (omega arith)
          (layout-fits s our_key h) (IsKey-static s h) refl in
      (
        wire,
        rw (encode_key_exchange-layout (offer s our_key) (offer-IsEncodable s our_key h), sent)
            refl,
        read_offer wire (rw append-nil at read),
      )
    where
      read_offer :
          (wire : Bytes)
          → parse wire
            ≡ ok (record {
              typ = key_exchange;
              from = s.our_static;
              id = nil_uuid;
              content = layout (offer s our_key);
            })
          → do_recv (ok wire) ≡ ok (offer s our_key)
      read_offer wire e =
          rw
            (
              e,
              bytes_eq_refl key_exchange,
              subst (λ (b : Bytes). decode_key_exchange b ≡ ok (offer s our_key)) (append-nil _)
                  (decode_layout (offer s our_key) (offer-IsEncodable s our_key h) []),
              bytes_eq-ne s.our_static nil_key h.not_nil,
            )
            refl

  verify_offer :
      (s o : Session) (o_key : Bytes)
      → IsReady c o
      → o.our_static ≢ s.our_static
      → verify_peer c s (offer o o_key) ≡ ok tt
  unfolding verify_peer
  verify_offer s o o_key h other =
      rw
        (
          bytes_eq-ne o.our_static nil_key h.not_nil,
          bytes_eq-ne o.our_static s.our_static other,
          valid,
        )
        refl
    where
      valid : c.verify o.our_static (c.x25519 o_key) (c.sign o.our_seed (c.x25519 o_key)) ≡ true
      valid = rw h.own_key (c.verify-sign o.our_seed (c.x25519 o_key))

  -- One side of the handshake, whichever it is, by what the connection says of what it writes.
  handshake_side :
      (initiator : Bool) (write : Bytes → Outcome SessionError (Unit {0})) (s o : Session)
      (s_key o_key shared wire own : Bytes) (r : Outcome SessionError (Unit {0}))
      → IsReady c o
      → o.our_static ≢ s.our_static
      → c.ecdh s_key (c.x25519 o_key) ≡ some shared
      → key_exchange_payload s (c.x25519 s_key) (c.sign s.our_seed (c.x25519 s_key)) ≡ ok own
      → do_recv (ok wire) ≡ ok (offer o o_key)
      → write own ≡ r
      → handshake c write (ok wire) s initiator s_key
        ≡ (r >>= λ _. ok (derive_keys c s shared initiator (offer o o_key)))
  unfolding handshake
  handshake_side true write s o s_key o_key shared wire own (ok tt) ho other agree sent read q =
      rw (sent, q, read, verify_offer s o o_key ho other, c.length-x25519 o_key, agree) refl
  handshake_side true write s o s_key o_key shared wire own (err x) ho other agree sent read q =
      rw (sent, q) refl
  handshake_side true write s o s_key o_key shared wire own (panic p) ho other agree sent read q =
      rw (sent, q) refl
  handshake_side false write s o s_key o_key shared wire own (ok tt) ho other agree sent read q =
      rw (read, sent, q, verify_offer s o o_key ho other, c.length-x25519 o_key, agree) refl
  handshake_side false write s o s_key o_key shared wire own (err x) ho other agree sent read q =
      rw (read, sent, q) refl
  handshake_side false write s o s_key o_key shared wire own (panic p) ho other agree sent read q =
      rw (read, sent, q) refl

  is_sha256_key : (b : Bytes) → is_aes_key (c.sha256 b) ≡ true
  is_sha256_key b = rw (c.length-sha256 b) refl

  derived-Linked :
      (i r : Session) (pi pr : KeyExchange) (shared : Bytes)
      → Linked (derive_keys c i shared true pr) (derive_keys c r shared false pi) 0
        × Linked (derive_keys c r shared false pi) (derive_keys c i shared true pr) 0
  unfolding derive_keys
  derived-Linked i r pi pr shared = (
    record {
      key = c.sha256 (ascii "session:send" ++ shared);
      sends = refl;
      receives = refl;
      aes = is_sha256_key _;
      sent = refl;
      received = refl;
      bounded = omega arith;
    },
    record {
      key = c.sha256 (ascii "session:recv" ++ shared);
      sends = refl;
      receives = refl;
      aes = is_sha256_key _;
      sent = refl;
      received = refl;
      bounded = omega arith;
    },
  )

  -- Two clients with distinct keys, whose X25519 keys have a shared secret, and each of which reads
  -- the one packet that the other writes: each side fails only if its connection fails to take its
  -- packet, and with that error. Otherwise it has a session with the static key and the name of the
  -- other, and each of the two sessions is linked to the other as a sender, from the counter 0.
  pub handshake-Linked :
      (i r : Session) (i_key r_key shared : Bytes)
      (i_write r_write : Bytes → Outcome SessionError (Unit {0}))
      → IsReady c i
      → IsReady c r
      → i.our_static ≢ r.our_static
      → c.ecdh i_key (c.x25519 r_key) ≡ some shared
      → (i_wire r_wire : Bytes) × (i' r' : Session) × (key_exchange_payload i
            (c.x25519 i_key)
            (c.sign i.our_seed (c.x25519 i_key))
          ≡ ok i_wire)
        × (key_exchange_payload r (c.x25519 r_key) (c.sign r.our_seed (c.x25519 r_key)) ≡ ok r_wire)
        × (handshake c i_write (ok r_wire) i true i_key ≡ (i_write i_wire >>= λ _. ok i'))
        × (handshake c r_write (ok i_wire) r false r_key ≡ (r_write r_wire >>= λ _. ok r'))
        × (i'.peer.static_pub_key ≡ r.our_static)
        × (r'.peer.static_pub_key ≡ i.our_static)
        × (i'.peer.name ≡ r.our_name)
        × (r'.peer.name ≡ i.our_name)
        × Linked i' r' 0
        × Linked r' i' 0
  unfolding derive_keys
  handshake-Linked i r i_key r_key shared i_write r_write hi hr distinct agree =
      let (i_wire, i_sent, i_read) = offer_sent i i_key hi in
      let (r_wire, r_sent, r_read) = offer_sent r r_key hr in
      let (there, back) = derived-Linked i r (offer i i_key) (offer r r_key) shared in
      (
        i_wire,
        r_wire,
        derive_keys c i shared true (offer r r_key),
        derive_keys c r shared false (offer i i_key),
        i_sent,
        r_sent,
        handshake_side true i_write i r i_key r_key shared r_wire i_wire (i_write i_wire) hr
            (λ e. distinct (sym e)) agree i_sent r_read refl,
        handshake_side false r_write r i r_key i_key shared i_wire r_wire (r_write r_wire) hi
            distinct (c.ecdh_agree i_key r_key shared agree) r_sent i_read refl,
        refl,
        refl,
        refl,
        refl,
        there,
        back,
      )
