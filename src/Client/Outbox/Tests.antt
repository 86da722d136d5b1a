-- ===== src/Client/Outbox/Tests.antt =====
-- client/client.go on the toy client: two signals wait for bob.
use mathlib.Core.List.{Permᴰ}
use end_to_end_chat.Base.{
  ◌≡◌, ◌≢◌, refl, ap, subst, Bytes, List, [], ◌∷◌, Option, none, some, ◌⊎◌, replicate, arith,
  bytes_eq,
}
use end_to_end_chat.Base.Outcome.{ok, err}
use end_to_end_chat.Base.Dict.{lookup}
use end_to_end_chat.Keys.Defs.{to_string, from_hex}
use end_to_end_chat.Store.Secret.{encrypt_raw, decrypt_raw, aes_key}
use end_to_end_chat.Store.Defs.{Store, OutboxRow, exec_failed}
use end_to_end_chat.Store.Peers.{accepted}
use end_to_end_chat.Store.Outbox.{OutboxSignal, put_outbox, get_outbox}
use end_to_end_chat.Store.Outbox.Laws.{entry_of, get_outbox-put_outbox}
use end_to_end_chat.Store.Sample.{toy_env, empty_store}
use end_to_end_chat.Message.Sample.{key}
use end_to_end_chat.Message.Repository.Sample.{secret, nonce, fresh}
use end_to_end_chat.Client.Session.Defs.{set_status}
use end_to_end_chat.Client.State.{Client, session_of}
use end_to_end_chat.Client.Outbox.{flush_outbox}
use end_to_end_chat.Store.Outbox.Rows.{Answers, IsQueue}
use end_to_end_chat.Client.Outbox.Flush.{Flushed, sent_on}
use end_to_end_chat.Client.Outbox.Delivery.{flush_outbox-Flushed, flush_outbox-empties}
use end_to_end_chat.Client.Sample.{open_net, client_with, keyed_with}

abbrev second_id : Bytes
second_id = replicate 16 3

abbrev queue_of : Bytes → Bytes → Bytes → Store toy_env → Store toy_env
queue_of id target raw s = (put_outbox toy_env nonce 7 id target raw secret s).0

abbrev waiting : Store toy_env
waiting = queue_of second_id key (0 ∷ 6 ∷ []) (queue_of fresh key (0 ∷ 5 ∷ []) empty_store)

abbrev entries : List OutboxSignal
entries =
    entry_of toy_env 7 fresh key (0 ∷ 5 ∷ []) ∷ entry_of toy_env 7 second_id key (0 ∷ 6 ∷ []) ∷ []

waiting_read : get_outbox toy_env key secret waiting ≡ ok entries
unfolding get_outbox put_outbox encrypt_raw decrypt_raw aes_key to_string from_hex bytes_eq
waiting_read = refl

ready_Answers : Answers toy_env
ready_Answers = record { deletes = λ q k h. cc; increments = λ q k h. cc; reads = λ q t h. cc }

abbrev rows_of : Option (List OutboxRow) → List OutboxRow
rows_of none = []
rows_of (some rows) = rows

waiting-IsQueue :
    (rows : List OutboxRow)
    → toy_env.outbox.of_target waiting.queue (to_string toy_env.hex key) ≡ some rows
    → IsQueue toy_env rows
unfolding put_outbox encrypt_raw aes_key to_string bytes_eq
waiting-IsQueue rows h =
    subst (IsQueue toy_env) (ap rows_of h)
      ((fresh, refl, refl), (refl, tt), ((second_id, refl, refl), tt, tt))

-- The session has no key: the first entry is refused.
flush_outbox-Flushed_example :
    (c' : Client toy_env) × (flush_outbox toy_env open_net key (client_with accepted waiting)
      ≡ (c', ok tt))
    × Flushed toy_env open_net 0 key secret entries (client_with accepted waiting) c'
unfolding bytes_eq session_of set_status lookup
flush_outbox-Flushed_example =
    flush_outbox-Flushed toy_env open_net 0 key (client_with accepted waiting) entries (λ p q. cc)
      ready_Answers waiting-IsQueue refl refl waiting_read

flush_outbox-empties_example :
    (c' : Client toy_env) × (flush_outbox toy_env open_net key (keyed_with waiting) ≡ (c', ok tt))
    × (c'.sent ≡ sent_on toy_env 0 entries)
    × (get_outbox toy_env key secret c'.store ≡ ok [])
unfolding bytes_eq session_of set_status lookup
flush_outbox-empties_example =
    flush_outbox-empties toy_env open_net 0 key (replicate 32 4) (keyed_with waiting) entries
      (λ p. refl) refl refl ready_Answers waiting-IsQueue refl refl waiting_read

get_outbox-put_outbox_example :
    (put_outbox toy_env nonce 7 second_id key (0 ∷ 6 ∷ []) secret empty_store
      ≡ (empty_store, err exec_failed))
    ⊎ ((s' : Store toy_env) × (put_outbox toy_env nonce 7 second_id key
            (0 ∷ 6 ∷ [])
            secret
            empty_store
          ≡ (s', ok second_id))
        × (toy_env.outbox.of_target s'.queue (to_string toy_env.hex key) ≢ none
            → (entries : List OutboxSignal) × (get_outbox toy_env key secret s' ≡ ok entries)
              × Permᴰ (entry_of toy_env 7 second_id key (0 ∷ 6 ∷ []) ∷ []) entries))
unfolding get_outbox
get_outbox-put_outbox_example =
    get_outbox-put_outbox toy_env nonce 7 0 second_id key (6 ∷ []) secret [] empty_store refl refl
      refl (omega arith) refl
