-- ===== src/Message/Repository/Changes.antt =====
-- message/message.go: one message of the store changed, and what `Get` says then.
use end_to_end_chat.Base.{
  ℕ, ◌≡◌, ◌≢◌, sym, ap, ◌∙◌, Bytes, inl, inr, bytes-cases, bytes_eq, bytes_eq_refl, bytes_eq-ne,
  if◌then◌else◌, Bool,
}
use end_to_end_chat.Base.Outcome.{Outcome, ok, err, map_err}
use end_to_end_chat.Base.Outcome
use end_to_end_chat.Store.Defs.{Env, Store, StoreError, Answer, failed}
use end_to_end_chat.Store.Chats
use end_to_end_chat.Store.Chats.{opened_row, cache_store, index_search}
use end_to_end_chat.Store.Writes.{answer, Written, index_search-answer}
use end_to_end_chat.Message.Defs.{Message}
use end_to_end_chat.Message.Repository.{
  RepositoryError, stored, get, decoded, index_and_cache, search_text,
}
use end_to_end_chat.Message.Repository.Coherent.{
  Coherent, get-answer, get-of_answer, Coherent-Written, Coherent-index_search,
  Coherent-cache_store,
}
use end_to_end_chat.Message.Repository.Reads.{get-uncached}

module _ (e : Env) (secret : Bytes) where
  -- From `s` to `s'` only the message under `id` changed: its text reads as `r` now.
  pub record Changes (s s' : Store e) (id : Bytes) (r : Outcome StoreError Bytes) : Type 0 where
    pub coherent : Coherent e secret s'
    pub at : answer e id s' ≢ failed → Chats.get e id secret s' ≡ r
    pub elsewhere : (id' : Bytes) → id ≢ id' → answer e id' s' ≡ answer e id' s

  -- `Get` on `s'`, by what it is on `s`, wherever the database answers.
  abbrev pub Becomes : Store e → Store e → Bytes → Outcome RepositoryError Message → Type 0
  Becomes s s' id r =
      (now : ℕ) (id' : Bytes)
      → answer e id' s' ≢ failed
      → (get e now secret id' s').1 ≡ (if bytes_eq id id' then r else (get e now secret id' s).1)

  Changes-get :
      {s s' : Store e} {id : Bytes} {r : Outcome StoreError Bytes} (now : ℕ)
      → Changes s s' id r
      → answer e id s' ≢ failed
      → (get e now secret id s').1 ≡ Outcome.◌>>=◌ (map_err stored r) (decoded e id)
  Changes-get {s} {s'} {id} now c alive =
      get-uncached e secret now id s' c.coherent alive
      ∙ ap (λ (q : Outcome StoreError Bytes). Outcome.◌>>=◌ (map_err stored q) (decoded e id))
          (c.at alive)

  Changes-get_other :
      {s s' : Store e} {id : Bytes} {r : Outcome StoreError Bytes} (now : ℕ) (id' : Bytes)
      → Coherent e secret s
      → Changes s s' id r
      → id ≢ id'
      → answer e id' s' ≢ failed
      → (get e now secret id' s').1 ≡ (get e now secret id' s).1
  Changes-get_other {s} {s'} {id} now id' before c differ alive =
      get-uncached e secret now id' s' c.coherent alive
      ∙ ap (λ (q : Outcome StoreError Bytes). Outcome.◌>>=◌ (map_err stored q) (decoded e id'))
          (get-answer e secret id' s s' (c.elsewhere id' differ))
      ∙ sym (get-uncached e secret now id' s before (λ dead. alive (c.elsewhere id' differ ∙ dead)))

  pub Changes-Becomes :
      {s s' : Store e} {id : Bytes} {r : Outcome StoreError Bytes}
      → Coherent e secret s
      → Changes s s' id r
      → Becomes s s' id (Outcome.◌>>=◌ (map_err stored r) (decoded e id))
  Changes-Becomes {s} {s'} {id} {r} before c now id' alive = elim (bytes-cases id id') [
    | inl same ↦
        ap (λ (k : Bytes). (get e now secret k s').1) (sym same)
        ∙ Changes-get now c (λ dead. alive (ap (λ (k : Bytes). answer e k s') (sym same) ∙ dead))
        ∙ sym (
            ap
              (λ (b : Bool).
                if b
                then Outcome.◌>>=◌ (map_err stored r) (decoded e id)
                else (get e now secret id' s).1)
              (ap (bytes_eq id) (sym same) ∙ bytes_eq_refl id))
    | inr differ ↦
        Changes-get_other now id' before c differ alive
        ∙ sym (
            ap
              (λ (b : Bool).
                if b
                then Outcome.◌>>=◌ (map_err stored r) (decoded e id)
                else (get e now secret id' s).1)
              (bytes_eq-ne id id' differ))
  ]

  pub Written-Changes :
      {s s' : Store e} {id : Bytes} {a : Answer}
      → Coherent e secret s
      → Written e s s' id a
      → Changes s s' id (opened_row e secret a)
  Written-Changes {s} {s'} {id} {a} c w = record {
    coherent = Coherent-Written e secret c w;
    at = λ alive. get-of_answer e secret id s' a (w.at alive);
    elsewhere = w.elsewhere;
  }

  -- What was written is indexed and cached behind the write.
  pub Changes-index_and_cache :
      {s s' : Store e} {id plain : Bytes} (now : ℕ) (from_name : Bytes) (msg : Message)
      → Changes s s' id (ok plain)
      → Changes s (index_and_cache e now id from_name msg plain s') id (ok plain)
  unfolding index_and_cache cache_store
  Changes-index_and_cache {s} {s'} {id} {plain} now from_name msg c = record {
    coherent =
        Coherent-cache_store e secret now
          (Coherent-index_search e secret id from_name msg.to (search_text msg) c.coherent) held;
    at = λ alive.
        get-answer e secret id s'
          (record indexed { cached = e.cache.set indexed.cached now id plain }) (same id)
        ∙ c.at (λ dead. alive (same id ∙ dead));
    elsewhere = λ id' differ. same id' ∙ c.elsewhere id' differ;
  }
    where
      indexed : Store e
      indexed = index_search e id from_name msg.to (search_text msg) s'

      same : (id' : Bytes) → answer e id' indexed ≡ answer e id' s'
      same id' = index_search-answer e id from_name msg.to (search_text msg) id' s'

      held : answer e id indexed ≢ failed → Chats.get e id secret indexed ≡ ok plain
      held alive =
          get-answer e secret id s' indexed (same id) ∙ c.at (λ dead. alive (same id ∙ dead))

  -- Other changes before, of what the messages do not depend on.
  pub Changes-after :
      {s₀ s s' : Store e} {id : Bytes} {r : Outcome StoreError Bytes}
      → ((id' : Bytes) → answer e id' s ≡ answer e id' s₀)
      → Changes s s' id r
      → Changes s₀ s' id r
  Changes-after same c = record {
    coherent = c.coherent;
    at = c.at;
    elsewhere = λ id' differ. c.elsewhere id' differ ∙ same id';
  }
