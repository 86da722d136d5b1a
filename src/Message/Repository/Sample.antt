-- ===== src/Message/Repository/Sample.antt =====
-- A store with a message, on the toy database.
use end_to_end_chat.Base.{◌≡◌, ◌≢◌, refl, ap, Bytes, bytes_eq, inl, inr, ◌⊎◌, replicate, bytes_eq}
use end_to_end_chat.Base.Outcome.{Outcome, ok, err}
use end_to_end_chat.Signal.Defs.{ascii}
use end_to_end_chat.Store.Defs.{Store, chats, failed, exec_failed}
use end_to_end_chat.Store.Secret.{encrypt, aes_key}
use end_to_end_chat.Store.Chats.{put_with_id}
use end_to_end_chat.Store.Writes.{answer}
use end_to_end_chat.Store.Sample.{row_answer-ne-failed, toy_env, empty_store}
use end_to_end_chat.Message.Layout.{encode-layout}
use end_to_end_chat.Message.Sample.{id, greeting, greeting-IsEncodable}
use end_to_end_chat.Message.Repository.{RepositoryError, stored, stored_id, put, get}
use end_to_end_chat.Message.Repository.Coherent.{Coherent}
use end_to_end_chat.Message.Repository.Changes.{Becomes}
use end_to_end_chat.Message.Repository.Puts.{put-Becomes}

abbrev pub secret : Bytes
secret = replicate 32 8

abbrev pub nonce : Bytes
nonce = replicate 12 4

abbrev pub fresh : Bytes
fresh = replicate 16 6

pub empty-Coherent : Coherent toy_env secret empty_store
empty-Coherent = record { at = λ now id v h. cc }

first_put :
    (put toy_env nonce 5 fresh secret (ascii "bob") greeting empty_store
      ≡ (empty_store, err (stored exec_failed)))
    ⊎ ((s' : Store toy_env) × (put toy_env nonce 5 fresh secret (ascii "bob") greeting empty_store
          ≡ (s', ok (stored_id fresh greeting)))
        × Coherent toy_env secret s'
        × Becomes toy_env secret empty_store s'
            (stored_id fresh greeting)
            (ok (record greeting { id = stored_id fresh greeting })))
first_put =
    put-Becomes toy_env nonce 5 fresh secret (ascii "bob") greeting empty_store refl
      greeting-IsEncodable empty-Coherent

put_succeeds : (put toy_env nonce 5 fresh secret (ascii "bob") greeting empty_store).1 ≡ ok id
unfolding put put_with_id encrypt aes_key bytes_eq
put_succeeds = rw (encode-layout {E = RepositoryError} greeting greeting-IsEncodable) refl

pub alive : (s : Store toy_env) (k : Bytes) → answer toy_env k s ≢ failed
alive s k = row_answer-ne-failed (s.tables chats k)

-- The store behind the put.
pub holding :
    (s : Store toy_env) × Coherent toy_env secret s × ((get toy_env 7 secret id s).1 ≡ ok greeting)
unfolding bytes_eq
holding = elim first_put [
  | inl gone ↦
      cc (put_succeeds, ap (λ (p : Store toy_env × Outcome RepositoryError Bytes). p.1) gone)
  | inr (s', _, c, b) ↦ (s', c, b 7 id (alive s' id))
]
