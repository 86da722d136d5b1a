-- ===== src/Client/NoLimit/Tests.antt =====
-- client/handlers.go on the toy client: a client with a limit of 0 receives a signal.
use end_to_end_chat.Base.{◌≡◌, refl, bytes_eq, Bytes, [], ◌∷◌, arith, replicate, some}
use end_to_end_chat.Base.Outcome.{ok, panic, zero_division}
use end_to_end_chat.Signal.Defs.{ascii}
use end_to_end_chat.Signal.New.{new}
use end_to_end_chat.Store.Peers.{accepted}
use end_to_end_chat.Store.Sample.{toy_env, empty_store}
use end_to_end_chat.Client.Session.Defs.{Session, new_session, set_status}
use end_to_end_chat.Client.Session.Channel.{Linked, packet}
use end_to_end_chat.Client.State.{Client}
use end_to_end_chat.Client.Loop.{turns}
use end_to_end_chat.Client.NoLimit.{turns-no_limit}
use end_to_end_chat.Client.Sample.{open_net, draws, client_with}

abbrev shared_key : Bytes
shared_key = replicate 32 4

-- A session that sends and receives under the same key.
abbrev looped : Session
looped =
    record (set_status (new_session (ascii "bob") (replicate 32 9) (replicate 32 8) 0 100 0)
      accepted) {
        sendr = record { key = some shared_key; nonce = 0 };
        recv = record { key = some shared_key; nonce = 0 };
      }

abbrev unlimited : Client toy_env
unlimited = record (client_with accepted empty_store) { objects = λ h. looped }

linked : Linked looped looped 0
linked = record {
  key = shared_key;
  sends = refl;
  receives = refl;
  aes = refl;
  sent = refl;
  received = refl;
  bounded = omega arith;
}

turns-no_limit_example :
    (wire : Bytes) × (new (ascii "ping") (replicate 32 9) (replicate 16 0) [] ≡ ok wire)
    × ((turns toy_env open_net
          ((draws, packet toy_env.crypto shared_key 0 wire) ∷ [])
          0
          (replicate 32 9)
          unlimited).1
        ≡ panic zero_division)
unfolding set_status new_session bytes_eq
turns-no_limit_example =
    turns-no_limit toy_env open_net draws 0 0 100 0 (ascii "ping") (replicate 32 9) (replicate 16 0)
      [] (replicate 32 9) [] looped unlimited (omega arith) (omega arith) refl refl linked refl refl
