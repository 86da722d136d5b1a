-- ===== src/Message/Search/Hits.antt =====
-- message/message.go: `Search` gives what `Get` says of each hit.
use end_to_end_chat.Base.{
  ℕ, ◌==◌, ◌≡◌, ◌≢◌, refl, ap, ◌∙◌, Bytes, List, [], ◌∷◌, ◌++◌, All, Option, none, some, length,
  false,
}
use end_to_end_chat.Base.Outcome.{Outcome, Panic, ok, err, panic}
use end_to_end_chat.Base.Op.{forgive}
use end_to_end_chat.Store.Defs.{Env, Store, failed}
use end_to_end_chat.Store.Writes.{answer}
use end_to_end_chat.Message.Defs.{Message}
use end_to_end_chat.Message.Repository.{get}
use end_to_end_chat.Message.Repository.Coherent.{Coherent}
use end_to_end_chat.Message.Repository.Loads.{Kept, get-Kept, get-Kept_same}
use end_to_end_chat.Message.Search.{added, read_hit, read_hits, search, search_index}

abbrev pub if_read : {E A : Type 0} → Outcome E A → Option A
if_read (ok a) = some a
if_read (err x) = none
if_read (panic p) = none

abbrev pub as_list : {A : Type 0} → Option A → List A
as_list none = []
as_list (some a) = a ∷ []

added-as_list : (o : Option Message) (msgs : List Message) → added o msgs ≡ as_list o ++ msgs
added-as_list none msgs = refl
added-as_list (some msg) msgs = refl

forgive-if_read :
    {S E A : Type 0} (s : S) (r : Outcome E A)
    → ((p : Panic) → r ≢ panic p)
    → forgive (s, r) ≡ (s, ok (if_read r))
forgive-if_read s (ok a) safe = refl
forgive-if_read s (err x) safe = refl
forgive-if_read s (panic p) safe = absurd (safe p refl)

module _ (e : Env) (matches : e.db.State → Bytes → ℕ → Option (List Bytes))
    (parse : Bytes → Option Bytes) (now : ℕ) (secret : Bytes) where
  -- What `Get` says of an id in one and the same store.
  abbrev pub read_at : Store e → Option Bytes → Option Message
  read_at s none = none
  read_at s (some id) = if_read (get e now secret id s).1

  abbrev pub hits : Store e → List Bytes → List Message
  hits s [] = []
  hits s (text ∷ texts) = as_list (read_at s (parse text)) ++ hits s texts

  -- The database answers for the id, and reading the message does not panic.
  abbrev pub IsHit : Store e → Option Bytes → Type 0
  IsHit s none = Unit {0}
  IsHit s (some id) = (answer e id s ≢ failed) × ((p : Panic) → (get e now secret id s).1 ≢ panic p)

  abbrev ReadsOn : {A : Type 0} → Store e → Store e × A → A → Type 0
  ReadsOn s p a = (s' : Store e) × (p ≡ (s', a)) × Kept e secret s s'

  read_hit-ReadsOn :
      (s s' : Store e) (o : Option Bytes)
      → Coherent e secret s
      → Kept e secret s s'
      → IsHit s o
      → ReadsOn s (read_hit e matches parse now secret o s') (ok (read_at s o))
  unfolding read_hit
  read_hit-ReadsOn s s' none c kept hit = (s', refl, kept)
  read_hit-ReadsOn s s' (some id) c kept (alive, safe) =
      let next = get-Kept e secret now id s' kept.coherent in
      (
        (get e now secret id s').0,
        rw (get-Kept_same e secret now id kept c alive)
            (forgive-if_read (get e now secret id s').0 (get e now secret id s).1 safe),
        record { coherent = next.coherent; tables = next.tables ∙ kept.tables },
      )

  read_hits-ReadsOn :
      (s s' : Store e) (texts : List Bytes)
      → Coherent e secret s
      → Kept e secret s s'
      → All (λ (text : Bytes). IsHit s (parse text)) texts
      → ReadsOn s (read_hits e matches parse now secret texts s') (ok (hits s texts))
  unfolding read_hits
  read_hits-ReadsOn s s' [] c kept _ = (s', refl, kept)
  read_hits-ReadsOn s s' (text ∷ texts) c kept (hit, others) =
      let (s1, first, kept1) = read_hit-ReadsOn s s' (parse text) c kept hit in
      let (s2, rest, kept2) = read_hits-ReadsOn s s1 texts c kept1 others in
      (
        s2,
        rw (first, rest)
            (ap (λ l. (s2, ok l)) (added-as_list (read_at s (parse text)) (hits s texts))),
        kept2,
      )

  -- A query that is not empty, for which the index gives texts of ids, in a store with a coherent
  -- cache: if the database answers for each id, and reading its message does not panic, then
  -- `Search` succeeds; its result is what `Get` says of these ids in the store as it was, in the
  -- order of the index and without those that cannot be read, although each of them is read behind
  -- what the ones before it have left in the cache; the table is what it was, and the cache stays
  -- coherent.
  pub search-hits :
      (query : Bytes) (limit : ℕ) (s : Store e) (texts : List Bytes)
      → (length query == 0) ≡ false
      → matches s.tables query limit ≡ some texts
      → Coherent e secret s
      → All (λ (text : Bytes). IsHit s (parse text)) texts
      → (s' : Store e) × (search e matches parse now secret query limit s ≡ (s', ok (hits s texts)))
        × Kept e secret s s'
  unfolding search search_index
  search-hits query limit s texts asked found c all =
      rw (asked, found) (read_hits-ReadsOn s s texts c (record { coherent = c; tables = refl }) all)
