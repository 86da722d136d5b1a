-- ===== src/Client/Connect/Tests.antt =====
-- client/handlers.go on the toy client: mallory connects under the key of bob.
use end_to_end_chat.Base.{
  ℕ, ◌≡◌, ◌≢◌, ◌<◌, refl, sym, ◌∙◌, ap, Bytes, [], ◌∷◌, some, replicate, arith, false,
}
use end_to_end_chat.Base.Outcome.{ok}
use end_to_end_chat.Signal.Defs.{ascii}
use end_to_end_chat.Store.Defs.{Draws}
use end_to_end_chat.Store.Peers.{accepted}
use end_to_end_chat.Store.Profile.{get_profile}
use end_to_end_chat.Store.Sample.{toy_env, empty_store}
use end_to_end_chat.Message.Sample.{key}
use end_to_end_chat.Message.Repository.Sample.{secret}
use end_to_end_chat.Client.Crypto.Sample.{toy}
use end_to_end_chat.Client.Session.Defs.{Session, new_session, set_status}
use end_to_end_chat.Client.Session.Handshake.{handshake}
use end_to_end_chat.Client.Session.Agreement.{IsReady, handshake-Linked}
use end_to_end_chat.Client.State.{Client, session_of, send_to}
use end_to_end_chat.Client.Peers.{get_name}
use end_to_end_chat.Client.Outbox.{send_or_queue}
use end_to_end_chat.Client.Connect.{Connection, start_session, own_session}
use end_to_end_chat.Client.Connect.Registration.{start_session-registers}
use end_to_end_chat.Client.Sample.{open_net, client_with}

-- The keys of the client belong together.
abbrev host : Client toy_env
host = record (client_with accepted empty_store) { public = secret; sessions = [] }

abbrev asked : Session
asked = set_status (own_session toy_env 0 host) accepted

abbrev mallory : Session
mallory = new_session (ascii "mallory") (replicate 32 1) (replicate 32 1) 100 60 0

abbrev first_byte : Bytes → ℕ
first_byte [] = 0
first_byte (x ∷ xs) = x

first_byte-gt : (xs ys : Bytes) → first_byte ys < first_byte xs → xs ≢ ys
first_byte-gt xs ys h e = omega (arith, h, ap first_byte e)

mallory-IsReady : IsReady toy mallory
unfolding new_session
mallory-IsReady = record {
  own_key = refl;
  not_nil = first_byte-gt _ _ (omega arith);
  name_fits = omega arith;
}

asked-IsReady : IsReady toy asked
unfolding new_session set_status get_name get_profile
asked-IsReady = record {
  own_key = refl;
  not_nil = first_byte-gt _ _ (omega arith);
  name_fits = omega arith;
}

strangers : mallory.our_static ≢ asked.our_static
unfolding new_session set_status
strangers q = first_byte-gt asked.our_static mallory.our_static (omega arith) (sym q)

-- What mallory sends, and the session that comes of it.
shaken :
    (wire : Bytes) × (s : Session) × (handshake toy (λ _. ok tt) (ok wire) asked false (4 ∷ [])
      ≡ ok s)
    × (s.peer.static_pub_key ≡ mallory.our_static)
unfolding new_session
shaken =
    let (wire, _, _, s, _, _, _, h, _, same, _, _, _, _) =
      handshake-Linked toy mallory asked (6 ∷ []) (4 ∷ []) (replicate 32 9) (λ _. ok tt)
        (λ _. ok tt) mallory-IsReady asked-IsReady strangers refl in
    (wire, s, h, same)

abbrev caller : Connection
caller = record { write = λ _. ok tt; raw = ok shaken.0; our_key = 4 ∷ []; now = 0 }

start_session-registers_example :
    (c' : Client toy_env) × (c' ≡ (start_session toy_env open_net caller key accepted host).0)
    × (session_of toy_env key c' ≡ some 1)
    × ((c'.objects 1).peer ≡ shaken.1.peer)
    × ((c'.objects 1).stat ≡ accepted)
    × ((d : Draws) (sig : Bytes)
        → accepted ≡ accepted
        → send_or_queue toy_env open_net d key sig (session_of toy_env key c') c'
          ≡ send_to toy_env open_net 1 sig c')
start_session-registers_example =
    start_session-registers toy_env open_net caller key accepted shaken.1 host shaken.2

-- The key in the path is not that of the peer.
stranger : shaken.1.peer.static_pub_key ≢ key
unfolding new_session
stranger q = first_byte-gt key mallory.our_static (omega arith) (sym q ∙ shaken.3)
