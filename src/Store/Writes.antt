-- ===== src/Store/Writes.antt =====
-- store/chats.go: what `PutWithID` and `Delete` leave in the table and in the cache.
use end_to_end_chat.Base.{
  ℕ, ◌≡◌, ◌≢◌, refl, sym, ap, ◌∙◌, Bytes, List, [], ◌∷◌, Option, none, some, length, Option-cases,
  inl, inr, ◌⊎◌,
}
use end_to_end_chat.Base.Outcome.{ok, err}
use end_to_end_chat.Config.{nonce_size}
use end_to_end_chat.Store.Defs.{
  Env, Store, Table, chats, chat_search, files, Answer, failed, no_rows, found, exec_failed,
}
use end_to_end_chat.Store.Secret.{decrypt-encrypt}
use end_to_end_chat.Store.Statements.{tried}
use end_to_end_chat.Store.Files.{delete_file}
use end_to_end_chat.Store.Chats.{
  uncache, cache_load, put_with_id, opened_row, delete, delete_search_index, index_search,
}

module _ (e : Env) where
  -- The answer to the query for a message.
  abbrev pub answer : Bytes → Store e → Answer
  answer id s = e.db.select_row s.tables chats id

  -- `s'` is `s` with the answer `a` to the query for `id`, and without `id` in the cache.
  pub record Written (s s' : Store e) (id : Bytes) (a : Answer) : Type 0 where
    pub at : answer id s' ≢ failed → answer id s' ≡ a
    pub elsewhere : (id' : Bytes) → id ≢ id' → answer id' s' ≡ answer id' s
    pub uncached : (now : ℕ) → cache_load e now id s' ≡ none
    pub cached_elsewhere :
        (now : ℕ) (id' v : Bytes)
        → id ≢ id'
        → cache_load e now id' s' ≡ some v
        → cache_load e now id' s ≡ some v

  chats_other : (id id' : Bytes) → id ≢ id' → ◌≢◌ {A = Table × Bytes} (chats, id) (chats, id')
  chats_other id id' h q = h (ap (λ (k : Table × Bytes). k.1) q)

  replaced-Written :
      (s : Store e) (db : e.db.State) (id : Bytes) (row : List Bytes)
      → e.db.replace_row s.tables chats id row ≡ some db
      → Written s (uncache e id (record s { tables = db })) id (found row)
  unfolding uncache
  replaced-Written s db id row h = record {
    at = λ alive. e.db.select-replace s.tables db chats id row h alive;
    elsewhere = λ id' differ.
        e.db.replace_elsewhere s.tables db chats chats id id' row h (chats_other id id' differ);
    uncached = λ now. e.cache.lookup-remove s.cached now id;
    cached_elsewhere = λ now id' v differ. e.cache.lookup-remove_other s.cached now id id' v differ;
  }

  -- Under a nonce of 12 bytes, `PutWithID` fails with the statement and changes nothing, or it
  -- leaves a row from which the value can be read.
  pub put_with_id-Written :
      (nonce : Bytes) (now : ℕ) (id value secret : Bytes) (s : Store e)
      → length nonce ≡ nonce_size
      → (put_with_id e nonce now id value secret s ≡ (s, err exec_failed))
        ⊎ ((s' : Store e) × (a : Answer) × (put_with_id e nonce now id value secret s ≡ (s', ok tt))
            × Written s s' id a
            × (opened_row e secret a ≡ ok value))
  unfolding put_with_id opened_row
  put_with_id-Written nonce now id value secret s h =
      let (text, sealed, back) = decrypt-encrypt e secret nonce value h in
      let row = text ∷ e.rfc3339 now ∷ [] in
      elim (Option-cases (e.db.replace_row s.tables chats id row)) [
        | inl gone ↦ inl (rw (sealed, gone) refl)
        | inr (db, there) ↦ inr (
          uncache e id (record s { tables = db }),
          found row,
          rw (sealed, there) refl,
          replaced-Written s db id row there,
          back,
        )
      ]

  -- Where `PutWithID` fails with the statement, the database refused a row from which the value could
  -- have been read.
  pub put_with_id-refused :
      (nonce : Bytes) (now : ℕ) (id value secret : Bytes) (s : Store e)
      → length nonce ≡ nonce_size
      → put_with_id e nonce now id value secret s ≡ (s, err exec_failed)
      → (row : List Bytes) × (e.db.replace_row s.tables chats id row ≡ none)
        × (opened_row e secret (found row) ≡ ok value)
  unfolding put_with_id opened_row
  put_with_id-refused nonce now id value secret s h refused =
      let (text, sealed, back) = decrypt-encrypt e secret nonce value h in
      let row = text ∷ e.rfc3339 now ∷ [] in
      elim (Option-cases (e.db.replace_row s.tables chats id row)) [
        | inl gone ↦ (row, gone, back)
        | inr (db, there) ↦
            let done : put_with_id e nonce now id value secret s
                ≡ (uncache e id (record s { tables = db }), ok tt) =
              rw (sealed, there) refl in
            absurd (cc (ap (λ p. p.1) refused, ap (λ p. p.1) done))
      ]

  tried-cached : (s : Store e) (o : Option e.db.State) → (tried e s o).cached ≡ s.cached
  unfolding tried
  tried-cached s none = refl
  tried-cached s (some db) = refl

  tried-answer :
      (s : Store e) (o : Option e.db.State) (id : Bytes)
      → ((db : e.db.State) → o ≡ some db → e.db.select_row db chats id ≡ answer id s)
      → answer id (tried e s o) ≡ answer id s
  unfolding tried
  tried-answer s none id h = refl
  tried-answer s (some db) id h = h db refl

  chats≢chat_search : (id id' : Bytes) → ◌≢◌ {A = Table × Bytes} (chat_search, id) (chats, id')
  chats≢chat_search id id' q = cc (ap (λ (k : Table × Bytes). k.0) q)

  chats≢files : (id id' : Bytes) → ◌≢◌ {A = Table × Bytes} (files, id) (chats, id')
  chats≢files id id' q = cc (ap (λ (k : Table × Bytes). k.0) q)

  -- The other tables do not matter to a message.
  pub index_search-answer :
      (id from_name to_name text id' : Bytes) (s : Store e)
      → answer id' (index_search e id from_name to_name text s) ≡ answer id' s
  unfolding index_search
  index_search-answer id from_name to_name text id' s =
      tried-answer s (e.db.replace_row s.tables chat_search id row) id' λ db h.
        e.db.replace_elsewhere s.tables db chat_search chats id id' row h (chats≢chat_search id id')
    where
      row : List Bytes
      row = from_name ∷ to_name ∷ text ∷ []

  pub index_search-cached :
      (id from_name to_name text : Bytes) (s : Store e)
      → (index_search e id from_name to_name text s).cached ≡ s.cached
  unfolding index_search
  index_search-cached id from_name to_name text s = tried-cached s _

  pub delete_search_index-answer :
      (id id' : Bytes) (s : Store e) → answer id' (delete_search_index e id s) ≡ answer id' s
  unfolding delete_search_index
  delete_search_index-answer id id' s = tried-answer s _ id' λ db h.
      e.db.delete_elsewhere s.tables db chat_search chats id id' h (chats≢chat_search id id')

  delete_search_index-cached :
      (id : Bytes) (s : Store e) → (delete_search_index e id s).cached ≡ s.cached
  unfolding delete_search_index
  delete_search_index-cached id s = tried-cached s _

  pub delete_file-answer :
      (id id' : Bytes) (s : Store e) → answer id' (delete_file e id s) ≡ answer id' s
  unfolding delete_file
  delete_file-answer id id' s =
      tried-answer s _ id'
        λ db h. e.db.delete_elsewhere s.tables db files chats id id' h (chats≢files id id')

  pub delete_file-cached : (id : Bytes) (s : Store e) → (delete_file e id s).cached ≡ s.cached
  unfolding delete_file
  delete_file-cached id s = tried-cached s _

  abbrev without : Store e → e.db.State → Bytes → Store e
  without s db id = delete_search_index e id (record s { tables = db })

  deleted-Written :
      (s : Store e) (db : e.db.State) (id : Bytes)
      → e.db.delete_row s.tables chats id ≡ some db
      → Written s (uncache e id (without s db id)) id no_rows
  unfolding uncache
  deleted-Written s db id h = record {
    at = λ alive.
        same id ∙ e.db.select-delete s.tables db chats id h (λ dead. alive (same id ∙ dead));
    elsewhere = λ id' differ.
        same id'
        ∙ e.db.delete_elsewhere s.tables db chats chats id id' h (chats_other id id' differ);
    uncached = λ now. e.cache.lookup-remove _ now id;
    cached_elsewhere = λ now id' v differ q.
        ap (λ (k : e.cache.State). e.cache.lookup k now id')
          (sym (delete_search_index-cached id (record s { tables = db })))
        ∙ e.cache.lookup-remove_other _ now id id' v differ q;
  }
    where
      same : (id' : Bytes) → answer id' (without s db id) ≡ e.db.select_row db chats id'
      same id' = delete_search_index-answer id id' (record s { tables = db })

  -- `Delete` fails with the statement and changes nothing, or it leaves no row.
  pub delete-Written :
      (id : Bytes) (s : Store e)
      → (delete e id s ≡ (s, err exec_failed))
        ⊎ ((s' : Store e) × (delete e id s ≡ (s', ok tt)) × Written s s' id no_rows)
  unfolding delete
  delete-Written id s = elim (Option-cases (e.db.delete_row s.tables chats id)) [
    | inl gone ↦ inl (rw gone refl)
    | inr (db, there) ↦
        inr (uncache e id (without s db id), rw there refl, deleted-Written s db id there)
  ]
