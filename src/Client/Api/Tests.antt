-- ===== src/Client/Api/Tests.antt =====
-- client/api.go on the toy client: bob is rejected, and messages are to be deleted.
use end_to_end_chat.Signal.Defs
use end_to_end_chat.Signal.Parse.{parse}
use end_to_end_chat.Store.Defs.{not_exist}
use end_to_end_chat.Store.Writes.{answer}
use end_to_end_chat.Message.Sample.{id, greeting}
use end_to_end_chat.Message.Repository.{stored}
use end_to_end_chat.Message.Repository.Coherent.{Coherent}
use end_to_end_chat.Message.Repository.Changes.{Becomes}
use end_to_end_chat.Message.Repository.Loads.{Kept}
use end_to_end_chat.Message.Repository.Sample.{secret, holding, alive}
use end_to_end_chat.Client.Api.Messages.{api_update_message, api_delete_message}
use end_to_end_chat.Client.Api.Ownership.{api_delete_message-foreign, api_delete_message-own}
use end_to_end_chat.Client.Sample.{open_net, draws, keyed_with}
use end_to_end_chat.Base.{
  ℕ, ◌≡◌, refl, ap, Bytes, List, [], ◌∷◌, some, none, false, Bool, replicate, bytes_eq, inl, inr,
  ◌⊎◌,
}
use end_to_end_chat.Base.Outcome.{Outcome, ok, err}
use end_to_end_chat.Signal.Defs.{ascii}
use end_to_end_chat.Keys.Defs.{to_string, from_hex}
use end_to_end_chat.Store.Defs.{Draws, Store, StoreError, known_peers}
use end_to_end_chat.Store.Peers.{KnownPeer, get_peer, add_peer, accepted, rejected}
use end_to_end_chat.Store.Records.{get_peer-add_peer}
use end_to_end_chat.Store.Sample.{toy_env, empty_store, row_answer-ne-failed}
use end_to_end_chat.Message.Sample.{key}
use end_to_end_chat.Client.State.{Client, Net, session_of}
use end_to_end_chat.Client.Connect.{Connection, is_valid_pub_key, handle_ws}
use end_to_end_chat.Client.Http.{forbidden, internal_server_error}
use end_to_end_chat.Client.Api.Peers.{admin_reject_peer}
use end_to_end_chat.Client.Api.Rejection.{admin_reject_peer-shuts}
use end_to_end_chat.Client.Sample.{client_with}

abbrev bob : KnownPeer
bob = record {
  peer_ip = 127 ∷ [];
  pub_key = key;
  name = ascii "bob";
  nickname = [];
  status = accepted;
  online = false;
  last_seen = none;
  profile_pic = replicate 16 0;
}

-- The store in which the peer is there.
knowing : (s : Store toy_env) × (get_peer toy_env key s ≡ ok bob)
unfolding add_peer bytes_eq
knowing = elim (get_peer-add_peer toy_env bob empty_store refl refl refl) [
  | inl gone ↦ cc (ap (λ (p : Store toy_env × Outcome StoreError (Unit {0})). p.1) gone)
  | inr (s', _, there) ↦
      (s', there (row_answer-ne-failed (s'.tables known_peers (to_string toy_env.hex key))))
]

abbrev before : Client toy_env
before = client_with accepted knowing.0

abbrev path : Bytes
path = to_string toy_env.hex key

admin_reject_peer-shuts_example :
    (c' : Client toy_env) × (session_of toy_env key c' ≡ none)
    × ((admin_reject_peer toy_env path before ≡ (c', err internal_server_error))
        ⊎ ((admin_reject_peer toy_env path before ≡ (c', ok (record bob { status = rejected })))
            × ((net : Net) (conn : Connection) (upgraded : Bool) (inputs : List (Draws × Bytes))
                  (now : ℕ) (ip : Bytes)
                → handle_ws toy_env net conn upgraded inputs now path (some ip) c'
                  ≡ (c', err forbidden))))
unfolding is_valid_pub_key to_string from_hex
admin_reject_peer-shuts_example =
    admin_reject_peer-shuts toy_env path key bob before refl refl (λ q. cc q) knowing.1 refl refl
      refl refl (λ s. row_answer-ne-failed (s.tables known_peers (to_string toy_env.hex key)))

abbrev stranger : Client toy_env
stranger = keyed_with holding.0

api_delete_message-foreign_example :
    (c' : Client toy_env) × (api_update_message toy_env open_net
        (0 ∷ [])
        draws
        (some id)
        (some (ascii "x"))
        stranger
      ≡ (c', err forbidden))
    × (api_delete_message toy_env open_net (0 ∷ []) draws.now (some id) stranger
        ≡ (c', err forbidden))
    × (c'.sent ≡ [])
    × Kept toy_env secret holding.0 c'.store
api_delete_message-foreign_example =
    api_delete_message-foreign toy_env open_net (0 ∷ []) draws id (some (ascii "x")) greeting
      stranger holding.1 holding.2 (λ q. cc q)

-- The client is the author.
abbrev author : Client toy_env
author = record (keyed_with holding.0) { public = key }

api_delete_message-own_example :
    ((c' : Client toy_env) × (api_delete_message toy_env open_net (0 ∷ 1 ∷ []) 7 (some id) author
        ≡ (c', err internal_server_error))
      × (c'.sent ≡ [])
      × ((k : Bytes) → answer toy_env k c'.store ≡ answer toy_env k holding.0))
    ⊎ ((c' : Client toy_env) × (sig : Bytes) × (api_delete_message toy_env open_net
            (0 ∷ 1 ∷ [])
            7
            (some id)
            author
          ≡ (c', ok tt))
        × Coherent toy_env secret c'.store
        × Becomes toy_env secret holding.0 c'.store id (err (stored not_exist))
        × (c'.sent ≡ (0, sig) ∷ (1, sig) ∷ [])
        × (parse sig ≡ ok (record { typ = Defs.delete; from = key; id = id; content = [] })))
api_delete_message-own_example =
    api_delete_message-own toy_env open_net (0 ∷ 1 ∷ []) 7 id greeting author (λ h p. refl)
      ((replicate 32 4, refl, refl), ((replicate 32 4, refl, refl), tt)) refl refl holding.1
      (alive holding.0 id) holding.2 refl
