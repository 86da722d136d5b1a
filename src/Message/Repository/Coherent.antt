-- ===== src/Message/Repository/Coherent.antt =====
-- message/message.go: when the cache of decrypted messages agrees with the table.
use end_to_end_chat.Base.{ℕ, ◌≡◌, ◌≢◌, sym, ap, ◌∙◌, Bytes, some, inl, inr, bytes-cases}
use end_to_end_chat.Base.Outcome.{ok}
use end_to_end_chat.Store.Defs.{Env, Store, Answer, failed}
use end_to_end_chat.Store.Chats
use end_to_end_chat.Store.Files.{delete_file}
use end_to_end_chat.Store.Chats.{cache_load, cache_store, index_search, opened_row}
use end_to_end_chat.Store.Writes.{
  answer, Written, index_search-answer, index_search-cached, delete_file-answer, delete_file-cached,
}

module _ (e : Env) (secret : Bytes) where
  -- What is cached is what the table holds, as far as the database answers.
  pub record Coherent (s : Store e) : Type 0 where
    pub at :
        (now : ℕ) (id v : Bytes)
        → cache_load e now id s ≡ some v
        → answer e id s ≢ failed
        → Chats.get e id secret s ≡ ok v

  -- What one reads of a message depends on the answer of the database alone.
  pub get-answer :
      (id : Bytes) (s s' : Store e)
      → answer e id s' ≡ answer e id s
      → Chats.get e id secret s' ≡ Chats.get e id secret s
  unfolding Chats.get
  get-answer id s s' same = ap (opened_row e secret) same

  pub get-of_answer :
      (id : Bytes) (s : Store e) (a : Answer)
      → answer e id s ≡ a
      → Chats.get e id secret s ≡ opened_row e secret a
  unfolding Chats.get
  get-of_answer id s a same = ap (opened_row e secret) same

  pub Coherent-Written :
      {s s' : Store e} {id : Bytes} {a : Answer} → Coherent s → Written e s s' id a → Coherent s'
  Coherent-Written {s} {s'} {id} c w = record {
    at = λ now id' v q alive. elim (bytes-cases id id') [
      | inl same ↦ cc (q, w.uncached now, ap (λ (k : Bytes). cache_load e now k s') same)
      | inr differ ↦
          get-answer id' s s' (w.elsewhere id' differ)
          ∙ c.at now id' v (w.cached_elsewhere now id' v differ q)
              (λ dead. alive (w.elsewhere id' differ ∙ dead))
    ];
  }

  -- A change of what the messages do not depend on.
  pub Coherent-same :
      {s s' : Store e}
      → Coherent s
      → ((id : Bytes) → answer e id s' ≡ answer e id s)
      → s'.cached ≡ s.cached
      → Coherent s'
  Coherent-same {s} {s'} c same cache = record {
    at = λ now id v q alive.
        get-answer id s s' (same id)
        ∙ c.at now id v (ap (λ (k : e.cache.State). e.cache.lookup k now id) (sym cache) ∙ q)
            (λ dead. alive (same id ∙ dead));
  }

  -- What the table holds may be cached.
  pub Coherent-cache_store :
      {s : Store e} {id plain : Bytes} (now : ℕ)
      → Coherent s
      → (answer e id s ≢ failed → Chats.get e id secret s ≡ ok plain)
      → Coherent (cache_store e now id plain s)
  unfolding cache_store Chats.get
  Coherent-cache_store {s} {id} {plain} now c held = record {
    at = λ later id' v q alive. elim (bytes-cases id id') [
      | inl same ↦
          ap (λ (k : Bytes). Chats.get e k secret s) (sym same)
          ∙ held (λ dead. alive (ap (λ (k : Bytes). answer e k s) (sym same) ∙ dead))
          ∙ ap ok (sym (e.cache.lookup-set s.cached now later id plain v (found_at later v same q)))
      | inr differ ↦
          c.at later id' v (e.cache.lookup-set_other s.cached now later id id' plain v differ q)
            alive
    ];
  }
    where
      found_at :
          {id' : Bytes} (later : ℕ) (v : Bytes)
          → id ≡ id'
          → e.cache.lookup (e.cache.set s.cached now id plain) later id' ≡ some v
          → e.cache.lookup (e.cache.set s.cached now id plain) later id ≡ some v
      found_at later v same q =
          ap (λ (k : Bytes). e.cache.lookup (e.cache.set s.cached now id plain) later k) same ∙ q

  pub Coherent-index_search :
      {s : Store e} (id from_name to_name text : Bytes)
      → Coherent s
      → Coherent (index_search e id from_name to_name text s)
  Coherent-index_search {s} id from_name to_name text c =
      Coherent-same c (λ id'. index_search-answer e id from_name to_name text id' s)
        (index_search-cached e id from_name to_name text s)

  pub Coherent-delete_file : {s : Store e} (id : Bytes) → Coherent s → Coherent (delete_file e id s)
  Coherent-delete_file {s} id c =
      Coherent-same c (λ id'. delete_file-answer e id id' s) (delete_file-cached e id s)
