-- ===== src/Store/Tests.antt =====
-- store/ on the toy database: a peer, a file and the profile are written.
use end_to_end_chat.Base.{◌≡◌, ◌≢◌, refl, [], ◌∷◌, none, some, ◌⊎◌, replicate, false}
use end_to_end_chat.Base.Outcome.{ok, err}
use end_to_end_chat.Signal.Defs.{ascii}
use end_to_end_chat.Keys.Defs.{to_string}
use end_to_end_chat.Store.Defs.{Store, known_peers, files, failed, exec_failed}
use end_to_end_chat.Store.Files.{put_file, get_file}
use end_to_end_chat.Store.Peers.{KnownPeer, pending, add_peer, get_peer}
use end_to_end_chat.Store.Records.{get_peer-add_peer, get_file-put_file}
use end_to_end_chat.Store.Sample.{toy_env, empty_store}

abbrev carol : KnownPeer
carol = record {
  peer_ip = 10 ∷ 0 ∷ 0 ∷ 1 ∷ [];
  pub_key = replicate 32 3;
  name = ascii "carol";
  nickname = [];
  status = pending;
  online = false;
  last_seen = some 5;
  profile_pic = replicate 16 0;
}

get_peer-add_peer_example :
    (add_peer toy_env carol empty_store ≡ (empty_store, err exec_failed))
    ⊎ ((s' : Store toy_env) × (add_peer toy_env carol empty_store ≡ (s', ok tt))
        × (toy_env.db.select_row s'.tables known_peers (to_string toy_env.hex carol.pub_key)
              ≢ failed
            → get_peer toy_env carol.pub_key s'
              ≡ ok (record carol { last_seen = none; online = false })))
get_peer-add_peer_example = get_peer-add_peer toy_env carol empty_store refl refl refl

get_file-put_file_example :
    (put_file toy_env
        (replicate 12 1)
        5
        (replicate 32 8)
        (replicate 16 2)
        []
        (ascii "photo")
        empty_store
      ≡ (empty_store, err exec_failed))
    ⊎ ((s' : Store toy_env) × (put_file toy_env
            (replicate 12 1)
            5
            (replicate 32 8)
            (replicate 16 2)
            []
            (ascii "photo")
            empty_store
          ≡ (s', ok tt))
        × (toy_env.db.select_row s'.tables files (replicate 16 2) ≢ failed
            → get_file toy_env (replicate 32 8) (replicate 16 2) s' ≡ ok (ascii "photo")))
get_file-put_file_example =
    get_file-put_file toy_env (replicate 12 1) 5 (replicate 32 8) (replicate 16 2) []
      (ascii "photo") empty_store refl
