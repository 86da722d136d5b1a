-- ===== src/Message/Repository/Loads.antt =====
-- message/message.go: `loadPlain` and `Get` leave the messages as they are.
use end_to_end_chat.Base.{ℕ, ◌≡◌, refl, ap, sym, ◌∙◌, ◌≢◌, Bytes, Option, none, some}
use end_to_end_chat.Base.Outcome.{Outcome, ok, err, panic, map_err}
use end_to_end_chat.Base.Outcome
use end_to_end_chat.Base.Op.{after, forgive, lift}
use end_to_end_chat.Store.Defs.{Env, Store, StoreError, chats, failed}
use end_to_end_chat.Store.Chats
use end_to_end_chat.Store.Chats.{cache_load, cache_store}
use end_to_end_chat.Store.Writes.{answer}
use end_to_end_chat.Message.Repository.{stored, load_plain, load_behind, get, decoded}
use end_to_end_chat.Message.Repository.Coherent.{Coherent, Coherent-cache_store, get-answer}
use end_to_end_chat.Message.Repository.Reads.{get-uncached}

-- The state behind a computation that ends with one which does not touch the state.
pub after-lift_state :
    {S E A B : Type 0} (p : S × Outcome E A) (f : A → Outcome E B)
    → (after p (λ a. lift (f a))).0 ≡ p.0
after-lift_state (s, ok a) f = refl
after-lift_state (s, err x) f = refl
after-lift_state (s, panic q) f = refl

pub forgive-ok :
    {S E A : Type 0} (p : S × Outcome E A) {a : A} → p.1 ≡ ok a → forgive p ≡ (p.0, ok (some a))
forgive-ok p h = rw h refl

pub forgive-err :
    {S E A : Type 0} (p : S × Outcome E A) {x : E} → p.1 ≡ err x → forgive p ≡ (p.0, ok none)
forgive-err p h = rw h refl

module _ (e : Env) (secret : Bytes) where
  -- The table is the same, and the cache still agrees with it.
  pub record Kept (s s' : Store e) : Type 0 where
    pub coherent : Coherent e secret s'
    pub tables : s'.tables ≡ s.tables

  pub Kept-answer : {s s' : Store e} (id : Bytes) → Kept s s' → answer e id s' ≡ answer e id s
  Kept-answer id k = ap (λ (t : e.db.State). e.db.select_row t chats id) k.tables

  load_behind-Kept :
      (now : ℕ) (id : Bytes) (s : Store e) (r : Outcome StoreError Bytes) (o : Option Bytes)
      → Chats.get e id secret s ≡ r
      → Coherent e secret s
      → Kept s (load_behind e now secret id o s).0
  unfolding load_behind cache_store
  load_behind-Kept now id s (ok v) none h c =
      rw h (record { coherent = Coherent-cache_store e secret now c (λ _. h); tables = refl })
  load_behind-Kept now id s (err x) none h c = rw h (record { coherent = c; tables = refl })
  load_behind-Kept now id s (panic p) none h c = rw h (record { coherent = c; tables = refl })
  load_behind-Kept now id s r (some v) h c = record { coherent = c; tables = refl }

  pub load_plain-Kept :
      (now : ℕ) (id : Bytes) (s : Store e)
      → Coherent e secret s
      → Kept s (load_plain e now secret id s).0
  unfolding load_plain
  load_plain-Kept now id s c =
      load_behind-Kept now id s (Chats.get e id secret s) (cache_load e now id s) refl c

  pub get-Kept :
      (now : ℕ) (id : Bytes) (s : Store e) → Coherent e secret s → Kept s (get e now secret id s).0
  unfolding get
  get-Kept now id s c =
      rw (after-lift_state (load_plain e now secret id s) (decoded e id))
        (load_plain-Kept now id s c)

  -- `Get` says the same behind what keeps the messages, wherever the database answers.
  pub get-Kept_same :
      {s s' : Store e} (now : ℕ) (id : Bytes)
      → Kept s s'
      → Coherent e secret s
      → answer e id s ≢ failed
      → (get e now secret id s').1 ≡ (get e now secret id s).1
  get-Kept_same {s} {s'} now id kept c alive =
      get-uncached e secret now id s' kept.coherent
        (λ dead. alive (sym (Kept-answer id kept) ∙ dead))
      ∙ ap (λ (q : Outcome StoreError Bytes). Outcome.◌>>=◌ (map_err stored q) (decoded e id))
          (get-answer e secret id s s' (Kept-answer id kept))
      ∙ sym (get-uncached e secret now id s c alive)
