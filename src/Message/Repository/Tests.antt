-- ===== src/Message/Repository/Tests.antt =====
-- message/message.go on the toy database: a message is put, updated and deleted.
use end_to_end_chat.Base.{◌≡◌, refl, Bytes, ◌⊎◌, pos, arith}
use end_to_end_chat.Base.Outcome.{ok, err}
use end_to_end_chat.Signal.Defs.{ascii}
use end_to_end_chat.Store.Defs.{Store, exec_failed, not_exist}
use end_to_end_chat.Store.Writes.{answer}
use end_to_end_chat.Store.Sample.{toy_env, empty_store}
use end_to_end_chat.Message.Sample.{id, greeting, greeting-IsEncodable}
use end_to_end_chat.Message.Repository.{stored, stored_id, put, update, delete}
use end_to_end_chat.Message.Repository.Coherent.{Coherent}
use end_to_end_chat.Message.Repository.Changes.{Becomes}
use end_to_end_chat.Message.Repository.Loads.{Kept}
use end_to_end_chat.Message.Repository.Puts.{put-Becomes}
use end_to_end_chat.Message.Repository.Updates.{update-Becomes}
use end_to_end_chat.Message.Repository.Deletes.{delete-Becomes}
use end_to_end_chat.Message.Repository.Sample.{secret, nonce, fresh, empty-Coherent, alive, holding}

put-Becomes_example :
    (put toy_env nonce 5 fresh secret (ascii "bob") greeting empty_store
      ≡ (empty_store, err (stored exec_failed)))
    ⊎ ((s' : Store toy_env) × (put toy_env nonce 5 fresh secret (ascii "bob") greeting empty_store
          ≡ (s', ok (stored_id fresh greeting)))
        × Coherent toy_env secret s'
        × Becomes toy_env secret empty_store s'
            (stored_id fresh greeting)
            (ok (record greeting { id = stored_id fresh greeting })))
put-Becomes_example =
    put-Becomes toy_env nonce 5 fresh secret (ascii "bob") greeting empty_store refl
      greeting-IsEncodable empty-Coherent

update-Becomes_example :
    ((s' : Store toy_env) × (update toy_env nonce 7 secret id (ascii "bob") greeting holding.0
        ≡ (s', err (stored exec_failed)))
      × Kept toy_env secret holding.0 s')
    ⊎ ((s' : Store toy_env) × (update toy_env nonce 7 secret id (ascii "bob") greeting holding.0
          ≡ (s', ok tt))
        × Coherent toy_env secret s'
        × Becomes toy_env secret holding.0 s' id (ok (record greeting { updated_at = pos 7 })))
update-Becomes_example =
    update-Becomes toy_env secret nonce 7 id (ascii "bob") greeting greeting holding.0 refl
      (omega arith) greeting-IsEncodable holding.1 (alive holding.0 id) holding.2

delete-Becomes_example :
    ((s' : Store toy_env) × (delete toy_env 7 secret id holding.0 ≡ (s', err (stored exec_failed)))
      × Coherent toy_env secret s'
      × ((id' : Bytes) → answer toy_env id' s' ≡ answer toy_env id' holding.0))
    ⊎ ((s' : Store toy_env) × (delete toy_env 7 secret id holding.0 ≡ (s', ok tt))
        × Coherent toy_env secret s'
        × Becomes toy_env secret holding.0 s' id (err (stored not_exist)))
delete-Becomes_example = delete-Becomes toy_env secret 7 id greeting holding.0 holding.1 holding.2
