-- ===== src/Client/Frames.antt =====
-- Which operations leave the stored messages as they are: those on the store alone, and those on
-- the client, whose store is a part of its state.
pub mod Handlers
use end_to_end_chat.Base.{
  ◌≡◌, ◌≢◌, refl, ap, ◌∙◌, Bytes, List, [], Bool, true, false, if◌then◌else◌, Option, none, some,
}
use end_to_end_chat.Base.Outcome.{Outcome, ok, err, panic, map_err}
use end_to_end_chat.Base.Op.{Op, after, ◌>>=◌, lift, modify, attempt, forgive}
use end_to_end_chat.Store.Defs.{Env, Store, StoreError, Table, chats}
use end_to_end_chat.Store.Statements.{executed, tried}
use end_to_end_chat.Store.Writes.{answer}
use end_to_end_chat.Client.State.{Client, Warning, on_store, then_do}

module _ (e : Env) where
  -- The messages are the same, in the table and in the cache.
  pub record Same (s s' : Store e) : Type 0 where
    pub answers : (id : Bytes) → answer e id s' ≡ answer e id s
    pub cached : s'.cached ≡ s.cached

  pub Same-refl : {s : Store e} → Same s s
  Same-refl = record { answers = λ id. refl; cached = refl }

  pub Same-trans : {s t u : Store e} → Same s t → Same t u → Same s u
  Same-trans a b = record {
    answers = λ id. b.answers id ∙ a.answers id;
    cached = b.cached ∙ a.cached;
  }

  -- Two stores with their secrets: the messages and the secret are the same.
  pub record Alike (v w : Store e × Bytes) : Type 0 where
    pub stored : Same v.0 w.0
    pub private : w.1 ≡ v.1

  pub Alike-refl : {v : Store e × Bytes} → Alike v v
  Alike-refl = record { stored = Same-refl; private = refl }

  pub Alike-trans : {u v w : Store e × Bytes} → Alike u v → Alike v w → Alike u w
  Alike-trans a b = record {
    stored = Same-trans a.stored b.stored;
    private = b.private ∙ a.private;
  }

-- `view` is the store in the state of an operation, with the secret of the client.
module _ (e : Env) {S E : Type 0} (view : S → Store e × Bytes) where
  pub record Frames {A : Type 0} (m : Op S E A) : Type 0 where
    pub at : (s : S) → Alike e (view s) (view (m s).0)

  after-Alike :
      {A B : Type 0} (s : S) (p : S × Outcome E A) (f : A → Op S E B)
      → Alike e (view s) (view p.0)
      → ((a : A) → Frames (f a))
      → Alike e (view s) (view (after p f).0)
  after-Alike s (t, ok a) f h k = Alike-trans e h ((k a).at t)
  after-Alike s (t, err w) f h k = h
  after-Alike s (t, panic q) f h k = h

  pub Frames-bind :
      {A B : Type 0} (m : Op S E A) (f : A → Op S E B)
      → Frames m
      → ((a : A) → Frames (f a))
      → Frames (m >>= f)
  Frames-bind m f h k = record { at = λ s. after-Alike s (m s) f (h.at s) k }

  pub Frames-lift : {A : Type 0} (r : Outcome E A) → Frames (lift r)
  Frames-lift r = record { at = λ s. Alike-refl e }

  -- What reads the state leaves it as it is.
  pub Frames-reads : {A : Type 0} (f : S → Outcome E A) → Frames (λ s. (s, f s))
  Frames-reads f = record { at = λ s. Alike-refl e }

  pub Frames-modify : (f : S → S) → ((s : S) → Alike e (view s) (view (f s))) → Frames (modify f)
  Frames-modify f h = record { at = h }

  forgive-state : {A : Type 0} (p : S × Outcome E A) → (forgive p).0 ≡ p.0
  forgive-state (s, ok a) = refl
  forgive-state (s, err w) = refl
  forgive-state (s, panic q) = refl

  pub Frames-attempt : {A : Type 0} (m : Op S E A) → Frames m → Frames (attempt m)
  Frames-attempt m h = record { at = λ s. rw (forgive-state (m s)) (h.at s) }

  pub Frames-if :
      {A : Type 0} (b : Bool) (m n : Op S E A) → Frames m → Frames n → Frames (if b then m else n)
  Frames-if true m n h k = h
  Frames-if false m n h k = k

module _ (e : Env) where
  -- Operations on the store, and on the store of the client.
  abbrev pub FramesStore : {E A : Type 0} → Op (Store e) E A → Type 0
  FramesStore m = Frames e (λ s. (s, [])) m

  abbrev pub FramesClient : {A : Type 0} → Op (Client e) Warning A → Type 0
  FramesClient m = Frames e (λ c. (c.store, c.private)) m

  pub Frames-on_store :
      {E A : Type 0} (wrap : E → Warning) (m : Client e → Op (Store e) E A)
      → ((c : Client e) → FramesStore (m c))
      → FramesClient (on_store e wrap m)
  unfolding on_store
  Frames-on_store wrap m h = record {
    at = λ c. record { stored = ((h c).at c.store).stored; private = refl };
  }

  pub Frames-then :
      {A B : Type 0} (m : Op (Client e) Warning A) (f : A → Op (Client e) Warning B)
      → FramesClient m
      → ((a : A) → FramesClient (f a))
      → FramesClient (then_do e m f)
  unfolding then_do
  Frames-then m f h k = record {
    at = λ c. (Frames-bind e (λ s. (s.store, s.private)) m f h k).at c;
  }

  -- The new tables of a statement that does not touch the messages.
  pub executed-Same :
      (s : Store e) (o : Option e.db.State)
      → ((db : e.db.State)
          → o ≡ some db
          → (id : Bytes) → e.db.select_row db chats id ≡ answer e id s)
      → Same e s (executed e s o).0
  unfolding executed
  executed-Same s none h = Same-refl e
  executed-Same s (some db) h = record { answers = h db refl; cached = refl }

  pub Frames-replace :
      (t : Table) (id : Bytes) (row : List Bytes)
      → ((id' : Bytes) → ◌≢◌ {A = Table × Bytes} (t, id) (chats, id'))
      → Frames e (λ s. (s, [])) (λ (s : Store e). executed e s (e.db.replace_row s.tables t id row))
  Frames-replace t id row differ = record {
    at = λ s. record {
      stored =
          executed-Same s (e.db.replace_row s.tables t id row)
            λ db h id'. e.db.replace_elsewhere s.tables db t chats id id' row h (differ id');
      private = refl;
    };
  }
