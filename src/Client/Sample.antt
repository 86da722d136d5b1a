-- ===== src/Client/Sample.antt =====
-- A client on the toy database: it holds a message of bob, with whom it has a session.
use end_to_end_chat.Base.{[], ◌∷◌, replicate, some}
use end_to_end_chat.Signal.Defs.{ascii}
use end_to_end_chat.Store.Defs.{Draws, Store}
use end_to_end_chat.Store.Peers.{PeerStatus, accepted}
use end_to_end_chat.Store.Sample.{toy_env}
use end_to_end_chat.Message.Sample.{key}
use end_to_end_chat.Message.Repository.Sample.{secret, nonce, fresh}
use end_to_end_chat.Client.Session.Defs.{new_session, set_status}
use end_to_end_chat.Base.Outcome.{ok}
use end_to_end_chat.Client.State.{Client, Net}

-- A connection that takes every packet.
abbrev pub open_net : Net
open_net = λ h packet. ok tt

abbrev pub draws : Draws
draws = record { nonce = nonce; fresh = fresh; now = 7 }

-- A session with the key of bob is the object 0.
abbrev pub client_with : PeerStatus → Store toy_env → Client toy_env
client_with status s = record {
  public = replicate 32 9;
  private = secret;
  rate_limit = 10;
  rate_window = 100;
  store = s;
  objects = λ h. set_status (new_session (ascii "alice") (replicate 32 9) secret 10 100 0) status;
  next_object = 1;
  sessions = (key, 0) ∷ [];
  pending_files = [];
  sent = [];
}

-- The same with an AES key for every session.
abbrev pub keyed_with : Store toy_env → Client toy_env
keyed_with s =
    let c = client_with accepted s in
    record c {
      objects =
          λ h. record (c.objects h) { sendr = record { key = some (replicate 32 4); nonce = 0 } };
    }
