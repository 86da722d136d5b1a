-- ===== src/Client/Session/Authentic.antt =====
-- client/session.go: whom a completed handshake has authenticated.
use mathlib.Core.Bool.{false≢true}
use end_to_end_chat.Base.{
  ◌≡◌, ◌≢◌, refl, Bool, true, false, not, Bytes, length, bytes_eq, bytes_eq_refl, ◌==◌, subst,
}
use end_to_end_chat.Base.Outcome.{Outcome, ok, ◌>>=◌, ◌>>◌, guard, bind-eq-ok}
use end_to_end_chat.Client.Crypto.{Crypto}
use end_to_end_chat.Client.Codec.KeyExchange.{KeyExchange}
use end_to_end_chat.Client.Session.Defs.{
  Session, SessionError, connect_to_self, no_static_key, verification_failed, bad_peer_key,
  shared_secret_failed,
}
use end_to_end_chat.Keys.Defs.{nil_key}
use end_to_end_chat.Client.Session.Handshake.{
  swap_keys, verify_peer, derive_keys, share_secret, handshake, or_fail,
}

abbrev derived : Session → Outcome SessionError Session
derived s = ok s

ok-injective : {s s' : Session} → ◌≡◌ {A = Outcome SessionError Session} (ok s) (ok s') → s ≡ s'
ok-injective h = cc

guard-eq-ok : {E : Type 0} (b : Bool) (e : E) → guard b e ≡ ok tt → b ≡ true
guard-eq-ok true e h = refl
guard-eq-ok false e h = cc

not-bytes_eq : (xs ys : Bytes) → not (bytes_eq xs ys) ≡ true → xs ≢ ys
not-bytes_eq xs ys h e = absurd (false≢true (rw (e, bytes_eq_refl ys) at h))

module _ (c : Crypto) where
  -- The peer of a session: a key that is neither nil nor the client's own, under which the
  -- ephemeral key is signed.
  pub record IsAuthentic (own : Bytes) (s : Session) : Type 0 where
    pub not_nil : s.peer.static_pub_key ≢ nil_key
    pub not_own : s.peer.static_pub_key ≢ own
    pub signature : Bytes
    pub signed : c.verify s.peer.static_pub_key s.peer.ephemeral_key signature ≡ true

  verify_peer-IsAuthentic :
      (s : Session) (shared : Bytes) (initiator : Bool) (peer : KeyExchange)
      → verify_peer c s peer ≡ ok tt
      → IsAuthentic s.our_static (derive_keys c s shared initiator peer)
  unfolding verify_peer derive_keys
  verify_peer-IsAuthentic s shared initiator peer h =
      let not_own = guard (not (bytes_eq peer.static_pub_key s.our_static)) connect_to_self in
      let signed =
        guard (c.verify peer.static_pub_key peer.pub_key peer.signature) verification_failed in
      let (_, nil, rest) =
        bind-eq-ok (guard (not (bytes_eq peer.static_pub_key nil_key)) no_static_key)
          (λ _. not_own >> signed) h in
      let (_, own, valid) = bind-eq-ok not_own (λ _. signed) rest in
      record {
        not_nil = not-bytes_eq _ _ (guard-eq-ok _ _ nil);
        not_own = not-bytes_eq _ _ (guard-eq-ok _ _ own);
        signature = peer.signature;
        signed = guard-eq-ok _ _ valid;
      }

  share_secret-IsAuthentic :
      (s s' : Session) (initiator : Bool) (our_key : Bytes) (peer : KeyExchange)
      → verify_peer c s peer ≡ ok tt
      → share_secret c s initiator our_key peer ≡ ok s'
      → IsAuthentic s.our_static s'
  unfolding share_secret
  share_secret-IsAuthentic s s' initiator our_key peer verified h =
      let secret = or_fail (c.ecdh our_key peer.pub_key) shared_secret_failed in
      let keep = λ (shared : Bytes). derived (derive_keys c s shared initiator peer) in
      let (_, _, h1) =
        bind-eq-ok (guard (length peer.pub_key == 32) bad_peer_key) (λ _. secret >>= keep) h in
      let (shared, _, h2) = bind-eq-ok secret keep h1 in
      subst (IsAuthentic s.our_static) (ok-injective h2)
        (verify_peer-IsAuthentic s shared initiator peer verified)

  -- Whatever the connection delivers, a handshake that succeeds leaves a session whose peer is
  -- authenticated by a signature.
  pub handshake-IsAuthentic :
      (write : Bytes → Outcome SessionError (Unit {0})) (raw : Outcome SessionError Bytes)
      (s s' : Session) (initiator : Bool) (our_key : Bytes)
      → handshake c write raw s initiator our_key ≡ ok s'
      → IsAuthentic s.our_static s'
  unfolding handshake
  handshake-IsAuthentic write raw s s' initiator our_key h =
      let finish =
        λ (peer : KeyExchange). verify_peer c s peer >> share_secret c s initiator our_key peer in
      let (peer, _, h1) =
        bind-eq-ok
          (swap_keys c write raw s initiator (c.x25519 our_key)
            (c.sign s.our_seed (c.x25519 our_key)))
          finish h in
      let (_, verified, h2) =
        bind-eq-ok (verify_peer c s peer) (λ _. share_secret c s initiator our_key peer) h1 in
      share_secret-IsAuthentic s s' initiator our_key peer verified h2
