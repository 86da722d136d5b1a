-- ===== src/Client/EndToEnd/Tests.antt =====
-- A message from a client to another on toy clients.
use end_to_end_chat.Message.Repository.Puts.{NotWritten}
use end_to_end_chat.Base.{◌≡◌, refl, ap, Bytes, bytes_eq, ◌⊎◌, arith, replicate, some}
use end_to_end_chat.Base.Outcome.{ok, map_err}
use end_to_end_chat.Signal.Defs.{ascii}
use end_to_end_chat.Store.Peers.{accepted}
use end_to_end_chat.Store.Sample.{toy_env, empty_store}
use end_to_end_chat.Message.Layout.{attachments_layout}
use end_to_end_chat.Message.Sample.{id, greeting, greeting-IsEncodable}
use end_to_end_chat.Message.Repository.Coherent.{Coherent}
use end_to_end_chat.Message.Repository.Changes.{Becomes}
use end_to_end_chat.Message.Repository.Sample.{secret, empty-Coherent}
use end_to_end_chat.Wire.BigEndian.{put_be}
use end_to_end_chat.Client.RateLimit.{
  MsgLimiter, new_msg_limiter, allow, interval, refilled, take_token,
}
use end_to_end_chat.Client.Session.Defs.{Session, set_status, new_session}
use end_to_end_chat.Client.Session.Channel.{Linked}
use end_to_end_chat.Client.Sending.{send_message}
use end_to_end_chat.Client.EndToEnd.{receive-send_message, written}
use end_to_end_chat.Client.State.{Client, session_failed}
use end_to_end_chat.Client.Dispatch.{receive}
use end_to_end_chat.Client.Arrivals.{signed}
use end_to_end_chat.Client.Sample.{open_net, draws, client_with}

abbrev shared_key : Bytes
shared_key = replicate 32 4

-- A session that sends and receives under the same key.
abbrev looped : Session
looped =
    record (set_status (new_session (ascii "alice") (replicate 32 9) secret 10 100 0) accepted) {
      sendr = record { key = some shared_key; nonce = 0 };
      recv = record { key = some shared_key; nonce = 0 };
    }

abbrev connected : Client toy_env
connected = record (client_with accepted empty_store) { objects = λ h. looped }

linked : Linked looped looped 0
linked = record {
  key = shared_key;
  sends = refl;
  receives = refl;
  aes = refl;
  sent = refl;
  received = refl;
  bounded = omega arith;
}

-- The limiter behind one message.
abbrev spent : MsgLimiter
spent = record { limit = 10; window = 100; tokens = 9; last = 0 }

receive-send_message_example :
    ((send_message toy_env open_net 0 draws greeting connected).1
      ≡ map_err session_failed
          (open_net 0 (written toy_env linked.key 0 connected.public greeting)))
    × ((bob' : Client toy_env) × (receive toy_env open_net draws
            (written toy_env linked.key 0 connected.public greeting)
            0
            connected.public
            connected
          ≡ (bob', ok tt))
        × (((bob'.store ≡ empty_store)
              × NotWritten toy_env secret id (signed connected.public greeting) empty_store)
            ⊎ (Coherent toy_env secret bob'.store
                × Becomes toy_env secret empty_store bob'.store id
                    (ok (signed connected.public greeting)))))
unfolding bytes_eq set_status new_session new_msg_limiter allow refilled interval take_token put_be
    attachments_layout
receive-send_message_example =
    receive-send_message toy_env open_net open_net draws draws 0 0 0 spent greeting connected
      connected refl refl
      (record {
        id_fits = refl;
        from_fits = refl;
        to_fits = omega arith;
        content_fits = omega arith;
        time_fits = omega arith;
        created_fits = omega arith;
        updated_fits = omega arith;
        count_fits = omega arith;
        attachments_fit = greeting-IsEncodable.attachments_fit;
      })
      (omega arith) (λ q. cc (ap (bytes_eq id) q)) empty-Coherent empty-Coherent linked refl refl
