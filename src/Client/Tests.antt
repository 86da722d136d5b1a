-- ===== src/Client/Tests.antt =====
-- client/client.go on the toy client.
use end_to_end_chat.Message.Repository.Puts.{NotWritten}
use end_to_end_chat.Store.Records.{NotStored}
use end_to_end_chat.Base.{
  ℕ, ◌≡◌, ◌≢◌, refl, ap, Bytes, [], ◌∷◌, ◌++◌, bytes_eq, inl, inr, ◌⊎◌, arith, pos, replicate, none,
  false,
}
use end_to_end_chat.Base.Dict.{lookup}
use end_to_end_chat.Base.Outcome.{Outcome, ok, err}
use end_to_end_chat.Keys.Defs.{to_string}
use end_to_end_chat.Signal.Defs
use end_to_end_chat.Signal.Defs.{Signal, ascii, marker}
use end_to_end_chat.Store.Defs.{
  Store, StoreError, not_exist, exec_failed, files, failed, known_peers,
}
use end_to_end_chat.Store.Files.{get_file}
use end_to_end_chat.Store.Peers.{KnownPeer, pending, accepted, get_peer, add_peer}
use end_to_end_chat.Store.Records.{get_peer-add_peer}
use end_to_end_chat.Store.Writes.{answer}
use end_to_end_chat.Store.Sample.{toy_env, empty_store, row_answer-ne-failed}
use end_to_end_chat.Message.Layout.{message_layout}
use end_to_end_chat.Message.RoundTrip.{to_message-layout}
use end_to_end_chat.Message.Sample.{id, key, greeting, greeting-IsEncodable}
use end_to_end_chat.Message.Repository.{stored}
use end_to_end_chat.Message.Repository.Coherent.{Coherent}
use end_to_end_chat.Message.Repository.Changes.{Becomes}
use end_to_end_chat.Message.Repository.Loads.{Kept}
use end_to_end_chat.Message.Repository.Sample.{secret, holding, alive, empty-Coherent}
use end_to_end_chat.Client.Codec.FileMeta.{
  FileMeta, FileMetaError, decode_file_meta, encode_file_meta, decode-encode_file_meta,
}
use end_to_end_chat.Client.Session.Defs.{set_status}
use end_to_end_chat.Client.State.{◌>>◌, Client, Warning, repository_failed, session_of}
use end_to_end_chat.Client.Files.{handle_file_meta}
use end_to_end_chat.Client.Signals.{handle_delete, handle_update, handle_message}
use end_to_end_chat.Client.Dispatch.{handle_decrypted, handle_envelope}
use end_to_end_chat.Client.Frames.{Same}
use end_to_end_chat.Client.Gate.{handle_decrypted-Same}
use end_to_end_chat.Client.Authors.{handle_delete-foreign, handle_delete-own, handle_update-own}
use end_to_end_chat.Client.Arrivals.{handle_message-Becomes, signed}
use end_to_end_chat.Client.Acceptance.{handle_envelope-accepts}
use end_to_end_chat.Client.Reassembly.{deliver, deliver-stored}
use end_to_end_chat.Client.Loop.{end_loop, end_loop-removes}
use end_to_end_chat.Client.Sample.{open_net, draws, client_with}

abbrev mallory : Bytes
mallory = replicate 32 5

abbrev deletion : Bytes → Signal
deletion from = record { typ = Defs.delete; from = from; id = id; content = [] }

-- The bytes of a deletion.
abbrev deletion_wire : Bytes
deletion_wire = marker ∷ 0 ∷ 6 ∷ ascii "delete" ++ (key ++ (id ++ (0 ∷ 0 ∷ 0 ∷ 0 ∷ [])))

handle_decrypted-Same_example :
    Same toy_env
      (client_with pending holding.0).store
      (handle_decrypted toy_env open_net draws deletion_wire 0 key
        (client_with pending holding.0)).0.store
unfolding bytes_eq set_status
handle_decrypted-Same_example =
    handle_decrypted-Same toy_env open_net draws 0 key deletion_wire (client_with pending holding.0)
      refl

handle_delete-foreign_example :
    (c' : Client toy_env) × (w : Warning) × (handle_delete toy_env draws
        (deletion mallory)
        mallory
        (client_with accepted holding.0)
      ≡ (c', err w))
    × (handle_update toy_env draws (deletion mallory) mallory (client_with accepted holding.0)
        ≡ (c', err w))
    × Kept toy_env secret holding.0 c'.store
unfolding bytes_eq
handle_delete-foreign_example =
    handle_delete-foreign toy_env draws (deletion mallory) mallory greeting
      (client_with accepted holding.0) holding.1 holding.2 (λ q. cc (ap (bytes_eq mallory) q))

handle_delete-own_example :
    ((c' : Client toy_env) × (handle_delete toy_env draws
          (deletion key)
          key
          (client_with accepted holding.0)
        ≡ (c', err (repository_failed (stored exec_failed))))
      × Coherent toy_env secret c'.store
      × ((k : Bytes) → answer toy_env k c'.store ≡ answer toy_env k holding.0))
    ⊎ ((c' : Client toy_env) × (handle_delete toy_env draws
            (deletion key)
            key
            (client_with accepted holding.0)
          ≡ (c', ok tt))
        × Coherent toy_env secret c'.store
        × Becomes toy_env secret holding.0 c'.store id (err (stored not_exist)))
unfolding bytes_eq
handle_delete-own_example =
    handle_delete-own toy_env draws (deletion key) key greeting (client_with accepted holding.0)
      holding.1 (alive holding.0 id) holding.2 refl refl (λ q. cc (ap (bytes_eq key) q))

abbrev edit : Signal
edit = record { typ = Defs.update; from = key; id = id; content = ascii "bye" }

handle_update-own_example :
    ((c' : Client toy_env) × (handle_update toy_env draws edit key (client_with accepted holding.0)
        ≡ (c', err (repository_failed (stored exec_failed))))
      × Kept toy_env secret holding.0 c'.store)
    ⊎ ((c' : Client toy_env) × (handle_update toy_env draws edit key
            (client_with accepted holding.0)
          ≡ (c', ok tt))
        × Coherent toy_env secret c'.store
        × Becomes toy_env secret holding.0 c'.store id
            (ok (record greeting { content = ascii "bye"; updated_at = pos 7 })))
unfolding bytes_eq
handle_update-own_example =
    handle_update-own toy_env draws edit key greeting (client_with accepted holding.0) refl
      (omega arith)
      (record {
        id_fits = refl;
        from_fits = refl;
        to_fits = omega arith;
        content_fits = omega arith;
        time_fits = omega arith;
        created_fits = omega arith;
        updated_fits = omega arith;
        count_fits = omega arith;
        attachments_fit = greeting-IsEncodable.attachments_fit;
      })
      holding.1 (alive holding.0 id) holding.2 refl refl (λ q. cc (ap (bytes_eq key) q))

abbrev arrival : Signal
arrival = record { typ = Defs.message; from = key; id = id; content = message_layout greeting }

handle_message-Becomes_example :
    ((handle_message toy_env draws arrival key (client_with accepted empty_store)
        ≡ (client_with accepted empty_store, ok tt))
      × NotWritten toy_env secret id (signed key greeting) empty_store)
    ⊎ ((c' : Client toy_env) × (handle_message toy_env draws arrival key
            (client_with accepted empty_store)
          ≡ (c', ok tt))
        × Coherent toy_env secret c'.store
        × Becomes toy_env secret empty_store c'.store id (ok (signed key greeting)))
unfolding bytes_eq
handle_message-Becomes_example =
    handle_message-Becomes toy_env draws arrival key greeting (client_with accepted empty_store)
      refl refl (to_message-layout greeting greeting-IsEncodable) greeting-IsEncodable
      empty-Coherent

abbrev bob : KnownPeer
bob = record {
  peer_ip = 10 ∷ 0 ∷ 0 ∷ 1 ∷ [];
  pub_key = key;
  name = ascii "bob";
  nickname = [];
  status = pending;
  online = false;
  last_seen = none;
  profile_pic = replicate 16 0;
}

abbrev acceptance : Signal
acceptance = record { typ = Defs.peer_accepted; from = key; id = id; content = [] }

-- The store in which the peer is there, and pending.
knowing : (s : Store toy_env) × (get_peer toy_env key s ≡ ok bob)
unfolding add_peer bytes_eq
knowing = elim (get_peer-add_peer toy_env bob empty_store refl refl refl) [
  | inl gone ↦ cc (ap (λ (p : Store toy_env × Outcome StoreError (Unit {0})). p.1) gone)
  | inr (s', _, there) ↦
      (s', there (row_answer-ne-failed (s'.tables known_peers (to_string toy_env.hex key))))
]

handle_envelope-accepts_example :
    (c' : Client toy_env) × (handle_envelope toy_env open_net draws acceptance 0 key
        (client_with pending knowing.0)
      ≡ (c', ok tt))
    × ((c'.objects 0).stat ≡ accepted)
unfolding bytes_eq session_of set_status lookup
handle_envelope-accepts_example =
    handle_envelope-accepts toy_env open_net draws acceptance 0 key bob
      (client_with pending knowing.0) refl refl refl knowing.1

abbrev photo_id : Bytes
photo_id = replicate 16 2

abbrev small : FileMeta
small = record { name = ascii "a"; size = pos 5; mime = ascii "b" }

encoded :
    (wire : Bytes) × (encode_file_meta {E = FileMetaError} small ≡ ok wire)
    × (decode_file_meta (wire ++ []) ≡ ok small)
encoded =
    decode-encode_file_meta small
      (record { name_fits = omega arith; size_fits = omega arith; mime_fits = omega arith }) []

abbrev announcement : Signal
announcement = record { typ = Defs.file_meta; from = key; id = photo_id; content = encoded.0 ++ [] }

deliver-stored_example :
    (c' : Client toy_env) × ((handle_file_meta toy_env announcement key
          >> deliver toy_env photo_id ((draws, 1 ∷ 2 ∷ []) ∷ (draws, 3 ∷ 4 ∷ 5 ∷ []) ∷ []))
        (client_with accepted empty_store)
      ≡ (c', ok tt))
    × (lookup photo_id c'.pending_files ≡ none)
    × (((c'.store ≡ empty_store)
          × NotStored toy_env secret photo_id (1 ∷ 2 ∷ 3 ∷ 4 ∷ 5 ∷ []) empty_store)
        ⊎ (toy_env.db.select_row c'.store.tables files photo_id ≢ failed
            → get_file toy_env secret photo_id c'.store ≡ ok (1 ∷ 2 ∷ 3 ∷ 4 ∷ 5 ∷ [])))
unfolding bytes_eq
deliver-stored_example =
    deliver-stored toy_env announcement key small ((draws, 1 ∷ 2 ∷ []) ∷ []) draws (3 ∷ 4 ∷ 5 ∷ [])
      5 (client_with accepted empty_store) refl (λ q. cc (ap (bytes_eq photo_id) q)) refl encoded.2
      refl (omega arith) (omega arith) refl

-- The loop of an old session of bob, the object 1, ends.
end_loop-removes_example :
    (c' : Client toy_env) × (end_loop toy_env 9 1 key (client_with accepted holding.0)
      ≡ (c', ok tt))
    × (session_of toy_env key c' ≡ none)
    × ((c'.objects 1).sendr.key ≡ none)
    × ((c'.objects 1).recv.key ≡ none)
    × ((h' : ℕ) → 1 ≢ h' → c'.objects h' ≡ (client_with accepted holding.0).objects h')
    × Same toy_env holding.0 c'.store
end_loop-removes_example = end_loop-removes toy_env 9 1 key (client_with accepted holding.0)
