-- ===== src/Client/Session/Handshake.antt =====
-- client/session.go: `doSend`, `doRecv`, `verifyPeer`, `deriveKeys` and `handshake`. What the
-- connection does is an argument: `write` for `WriteMessage`, `raw` for what `ReadMessage` returns.
use end_to_end_chat.Base.{
  Bool, true, false, not, Bytes, ◌++◌, Option, none, some, length, bytes_eq, ◌==◌, if◌then◌else◌,
}
use end_to_end_chat.Base.Outcome.{Outcome, ok, err, ◌>>=◌, ◌>>◌, guard, map_err}
use end_to_end_chat.Signal.Defs.{ascii, key_exchange}
use end_to_end_chat.Signal.New.{new}
use end_to_end_chat.Signal.Parse.{parse}
use end_to_end_chat.Client.Crypto.{Crypto}
use end_to_end_chat.Client.Codec.KeyExchange.{KeyExchange, encode_key_exchange, decode_key_exchange}
use end_to_end_chat.Client.Session.Defs.{
  Session, SessionError, signal_failed, parse_failed, unexpected_type, decode_failed, no_static_key,
  connect_to_self, verification_failed, bad_peer_key, shared_secret_failed,
}
use end_to_end_chat.Keys.Defs.{nil_key}
use end_to_end_chat.Signal.Defs.{nil_uuid}

-- The bytes that `doSend` writes.
unfoldable pub key_exchange_payload : Session → Bytes → Bytes → Outcome SessionError Bytes
key_exchange_payload s our_ephemeral sig = do
  inner ← encode_key_exchange (record {
    pub_key = our_ephemeral;
    static_pub_key = s.our_static;
    client_name = s.our_name;
    signature = sig;
  })
  map_err signal_failed (new key_exchange s.our_static nil_uuid inner)

unfoldable pub do_send :
    (Bytes → Outcome SessionError (Unit {0}))
    → Session
    → Bytes
    → Bytes
    → Outcome SessionError (Unit {0})
unfolding key_exchange_payload
do_send write s our_ephemeral sig = do
  payload ← key_exchange_payload s our_ephemeral sig
  write payload

unfoldable pub do_recv : Outcome SessionError Bytes → Outcome SessionError KeyExchange
do_recv raw = do
  input ← raw
  sig ← map_err parse_failed (parse input)
  guard (bytes_eq sig.typ key_exchange) (unexpected_type sig.typ)
  d ← map_err decode_failed (decode_key_exchange sig.content)
  ok (if bytes_eq sig.from nil_key then d else record d { static_pub_key = sig.from })

abbrev pub or_fail : {A : Type 0} → Option A → SessionError → Outcome SessionError A
or_fail none e = err e
or_fail (some a) e = ok a

module _ (c : Crypto) where
  unfoldable pub verify_peer : Session → KeyExchange → Outcome SessionError (Unit {0})
  verify_peer s peer = do
    guard (not (bytes_eq peer.static_pub_key nil_key)) no_static_key
    guard (not (bytes_eq peer.static_pub_key s.our_static)) connect_to_self
    guard (c.verify peer.static_pub_key peer.pub_key peer.signature) verification_failed

  unfoldable pub derive_keys : Session → Bytes → Bool → KeyExchange → Session
  derive_keys s shared initiator peer =
      let send_key = c.sha256 (ascii "session:send" ++ shared) in
      let recv_key = c.sha256 (ascii "session:recv" ++ shared) in
      record s {
        sendr = record { key = some (if initiator then send_key else recv_key); nonce = 0 };
        recv = record { key = some (if initiator then recv_key else send_key); nonce = 0 };
        peer = record {
          name = peer.client_name;
          ephemeral_key = peer.pub_key;
          static_pub_key = peer.static_pub_key;
        };
      }

  -- The initiator sends first, and the other side receives first.
  unfoldable pub swap_keys :
      (Bytes → Outcome SessionError (Unit {0}))
      → Outcome SessionError Bytes
      → Session
      → Bool
      → Bytes
      → Bytes
      → Outcome SessionError KeyExchange
  unfolding do_send do_recv
  swap_keys write raw s true our_ephemeral sig = do do_send write s our_ephemeral sig; do_recv raw
  swap_keys write raw s false our_ephemeral sig = do
    peer ← do_recv raw
    do_send write s our_ephemeral sig
    ok peer

  -- The end of `handshake`: the shared secret, and the keys that are derived from it.
  unfoldable pub share_secret : Session → Bool → Bytes → KeyExchange → Outcome SessionError Session
  unfolding derive_keys
  share_secret s initiator our_key peer = do
    guard (length peer.pub_key == 32) bad_peer_key
    shared ← or_fail (c.ecdh our_key peer.pub_key) shared_secret_failed
    ok (derive_keys s shared initiator peer)

  -- `our_key` is the private key that `GenerateKey` draws.
  unfoldable pub handshake :
      (Bytes → Outcome SessionError (Unit {0}))
      → Outcome SessionError Bytes
      → Session
      → Bool
      → Bytes
      → Outcome SessionError Session
  unfolding swap_keys verify_peer share_secret
  handshake write raw s initiator our_key = do
    let our_ephemeral = c.x25519 our_key
    let sig = c.sign s.our_seed our_ephemeral
    peer ← swap_keys write raw s initiator our_ephemeral sig
    verify_peer s peer
    share_secret s initiator our_key peer
