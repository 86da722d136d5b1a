-- ===== src/Client/Api/Ownership.antt =====
-- client/api.go: `apiUpdateMessage` and `apiDeleteMessage` of a message that is not the client's own,
-- and `apiDeleteMessage` of one that is.
use end_to_end_chat.Base.{
  ℕ, ◌≡◌, ◌≢◌, refl, sym, ap, ◌∙◌, Bytes, List, [], Option, some, bytes_eq, bytes_eq_refl,
  bytes_eq-ne, true, subst, inl, inr, ◌⊎◌, map, ◌++◌, All,
}
use end_to_end_chat.Base.Outcome.{ok, err}
use end_to_end_chat.Signal.Defs
use end_to_end_chat.Signal.Defs.{IsKey, IsUuid}
use end_to_end_chat.Signal.Parse.{parse}
use end_to_end_chat.Store.Defs.{Draws, Env, Store, failed, not_exist}
use end_to_end_chat.Store.Writes.{answer}
use end_to_end_chat.Message.Defs.{Message}
use end_to_end_chat.Message.Repository
use end_to_end_chat.Message.Repository.{stored}
use end_to_end_chat.Message.Repository.Coherent.{Coherent}
use end_to_end_chat.Message.Repository.Changes.{Becomes, Changes-after, Changes-Becomes}
use end_to_end_chat.Message.Repository.Deletes.{delete-Changes}
use end_to_end_chat.Message.Repository.Loads.{Kept, Kept-answer, get-Kept, get-Kept_same}
use end_to_end_chat.Client.State.{Client, Net}
use end_to_end_chat.Client.Reach.{IsKeyed, broadcast_delete-reaches}
use end_to_end_chat.Client.Http.{forbidden, internal_server_error}
use end_to_end_chat.Client.Api.Messages.{get_owned_message, api_update_message, api_delete_message}

module _ (e : Env) where
  -- A request to change or to delete a message that can be read, in a store with a coherent cache,
  -- and whose author is not the client itself: both are forbidden, whatever the body says, nothing
  -- is sent, the table of the messages is what it was and the cache stays coherent.
  pub api_delete_message-foreign :
      (net : Net) (visits : List ℕ) (d : Draws) (id : Bytes) (body : Option Bytes) (old : Message)
      (c : Client e)
      → Coherent e c.private c.store
      → (Repository.get e d.now c.private id c.store).1 ≡ ok old
      → old.from_pub_key ≢ c.public
      → (c' : Client e) × (api_update_message e net visits d (some id) body c ≡ (c', err forbidden))
        × (api_delete_message e net visits d.now (some id) c ≡ (c', err forbidden))
        × (c'.sent ≡ c.sent)
        × Kept e c.private c.store c'.store
  unfolding api_update_message api_delete_message get_owned_message
  api_delete_message-foreign net visits d id body old c coherent there foreign = (
    record c { store = (Repository.get e d.now c.private id c.store).0 },
    rw (there, bytes_eq-ne old.from_pub_key c.public foreign) refl,
    rw (there, bytes_eq-ne old.from_pub_key c.public foreign) refl,
    refl,
    get-Kept e c.private d.now id c.store coherent,
  )

  -- The client deletes a message of its own that can be read, wherever the database answers for it,
  -- in a store with a coherent cache. Every connection takes every packet, the sessions that `Range`
  -- comes to have AES keys, and the key and the id fit. Then the statement fails, the reply is an
  -- internal error, nothing is sent and every message is what it was; or the deletion succeeds,
  -- `Get` does not find the message from then on, every other message is what it was, and one and
  -- the same packet has gone out on each of the sessions, in their order, which reads as the
  -- deletion of this message by this client.
  pub api_delete_message-own :
      (net : Net) (visits : List ℕ) (now : ℕ) (id : Bytes) (old : Message) (c : Client e)
      → ((h : ℕ) (p : Bytes) → net h p ≡ ok tt)
      → All (IsKeyed e c) visits
      → IsKey c.public
      → IsUuid id
      → Coherent e c.private c.store
      → answer e id c.store ≢ failed
      → (Repository.get e now c.private id c.store).1 ≡ ok old
      → old.from_pub_key ≡ c.public
      → ((c' : Client e) × (api_delete_message e net visits now (some id) c
            ≡ (c', err internal_server_error))
          × (c'.sent ≡ c.sent)
          × ((k : Bytes) → answer e k c'.store ≡ answer e k c.store))
        ⊎ ((c' : Client e) × (sig : Bytes) × (api_delete_message e net visits now (some id) c
              ≡ (c', ok tt))
            × Coherent e c.private c'.store
            × Becomes e c.private c.store c'.store id (err (stored not_exist))
            × (c'.sent ≡ c.sent ++ map (λ h. (h, sig)) visits)
            × (parse sig
                ≡ ok (record { typ = Defs.delete; from = c.public; id = id; content = [] })))
  unfolding api_delete_message get_owned_message
  api_delete_message-own net visits now id old c takes keyed own_fits fits coherent alive there
        own =
      elim (delete-Changes e c.private now id old s₀ kept.coherent still) [
        | inl (s', gone, _, answers) ↦ inl (
          record c { store = s' },
          rw (there, mine, gone) refl,
          refl,
          λ k. answers k ∙ Kept-answer e c.private k kept,
        )
        | inr (s', deleted, changes) ↦
            let c₁ : Client e = record c { store = s' } in
            let (c', sig, run, log, store, read) =
              broadcast_delete-reaches e net takes visits id c₁ own_fits fits keyed in
            let all_changes =
              Changes-after e c.private (λ k. Kept-answer e c.private k kept) changes in
            inr (
              c',
              sig,
              rw (there, mine, deleted, run) refl,
              subst (Coherent e c.private) (sym store) changes.coherent,
              subst (λ t. Becomes e c.private c.store t id (err (stored not_exist))) (sym store)
                  (Changes-Becomes e c.private coherent all_changes),
              log,
              read,
            )
      ]
    where
      s₀ : Store e
      s₀ = (Repository.get e now c.private id c.store).0

      kept : Kept e c.private c.store s₀
      kept = get-Kept e c.private now id c.store coherent

      still : (Repository.get e now c.private id s₀).1 ≡ ok old
      still = get-Kept_same e c.private now id kept coherent alive ∙ there

      mine : bytes_eq old.from_pub_key c.public ≡ true
      mine = ap (bytes_eq old.from_pub_key) (sym own) ∙ bytes_eq_refl old.from_pub_key
