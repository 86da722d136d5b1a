-- ===== src/Store/Sample.antt =====
-- A database and a cache as functions, which never fail and never forget, and a toy form of all
-- texts: they meet the laws.
pub mod Outbox
use end_to_end_chat.Store.Sample.Outbox.{toy_outbox}
use end_to_end_chat.Base.{
  ◌++◌, append-nil, ◌-◌, ◌%◌, ℕ, zero, suc, ◌≡◌, ◌≢◌, ◌≤◌, refl, sym, ap, ◌∙◌, Bytes, List, [], ◌∷◌,
  Option, none, some, Bool, true, false, ◌&&◌, ◌==◌, bytes_eq, bytes_eq_refl, bytes_eq→eq,
  bytes_eq-ne, Bool-cases, inl, inr, length, take, if◌then◌else◌, arith, subst,
}
use end_to_end_chat.Client.Crypto.Sample.{pad, length-pad, toy}
use end_to_end_chat.Keys.Sample.{toy_hex}
use end_to_end_chat.Store.Defs.{
  Table, chats, chat_search, files, known_peers, profile, Answer, no_rows, found, failed, Db, Cache,
  Env, Store, OutboxRow, rows_but, counted, zero_signal,
}

abbrev pub index : Table → ℕ
index chats = 0
index chat_search = 1
index files = 2
index known_peers = 3
index profile = 5

index-injective : (t t' : Table) → index t ≡ index t' → t ≡ t'
index-injective chats t' h = ground arith
index-injective _ t' h = ground arith

abbrev pub Tables : Type 0
Tables = Table → Bytes → Option (List Bytes)

abbrev pub same_row : Table → Bytes → Table → Bytes → Bool
same_row t k t' k' = (index t == index t') && bytes_eq k k'

same_row_refl : (t : Table) (k : Bytes) → same_row t k t k ≡ true
same_row_refl t k = ground (arith, bytes_eq_refl k)

same_row-ne :
    (t t' : Table) (k k' : Bytes)
    → ◌≢◌ {A = Table × Bytes} (t, k) (t', k')
    → same_row t k t' k' ≡ false
same_row-ne t t' k k' h = elim (Bool-cases (same_row t k t' k')) [
  | inl same ↦
      absurd (h λ i. (index-injective t t' (ground arith) i, bytes_eq→eq k k' (ground arith) i))
  | inr other ↦ other
]

abbrev pub write : Tables → Table → Bytes → Option (List Bytes) → Tables
write s t k r = λ t' k'. if same_row t k t' k' then r else s t' k'

abbrev pub row_answer : Option (List Bytes) → Answer
row_answer none = no_rows
row_answer (some r) = found r

pub row_answer-ne-failed : (o : Option (List Bytes)) → row_answer o ≢ failed
row_answer-ne-failed none h = cc
row_answer-ne-failed (some r) h = cc

-- `INSERT OR IGNORE` keeps a row that is there, `UPDATE` writes only to such a row.
abbrev kept_or : Option (List Bytes) → List Bytes → Option (List Bytes)
kept_or none r = some r
kept_or (some q) r = some q

abbrev changed_to : Option (List Bytes) → List Bytes → Option (List Bytes)
changed_to none r = none
changed_to (some q) r = some r

write_at : (s : Tables) (t : Table) (k : Bytes) (r : Option (List Bytes)) → write s t k r t k ≡ r
write_at s t k r = rw (same_row_refl t k) refl

write_elsewhere :
    (s : Tables) (t t' : Table) (k k' : Bytes) (r : Option (List Bytes))
    → ◌≢◌ {A = Table × Bytes} (t, k) (t', k')
    → write s t k r t' k' ≡ s t' k'
write_elsewhere s t t' k k' r h = rw (same_row-ne t t' k k' h) refl

-- From the state after a statement to what is selected of it.
pub selected :
    (s s' : Tables) (t : Table) (k : Bytes) (r : Option (List Bytes))
    → ◌≡◌ {A = Option Tables} (some (write s t k r)) (some s')
    → row_answer (s' t k) ≡ row_answer r
selected s s' t k r h =
    ap row_answer (ap (λ (m : Option Tables). row_of m) (sym h) ∙ write_at s t k r)
  where
    row_of : Option Tables → Option (List Bytes)
    row_of none = none
    row_of (some m) = m t k

pub untouched :
    (s s' : Tables) (t t' : Table) (k k' : Bytes) (r : Option (List Bytes))
    → ◌≡◌ {A = Option Tables} (some (write s t k r)) (some s')
    → ◌≢◌ {A = Table × Bytes} (t, k) (t', k')
    → row_answer (s' t' k') ≡ row_answer (s t' k')
untouched s s' t t' k k' r h differ =
    ap row_answer
      (ap (λ (m : Option Tables). row_of m) (sym h) ∙ write_elsewhere s t t' k k' r differ)
  where
    row_of : Option Tables → Option (List Bytes)
    row_of none = none
    row_of (some m) = m t' k'

pub inserted :
    (old : Option (List Bytes)) (r : List Bytes)
    → row_answer old ≡ no_rows
    → row_answer (kept_or old r) ≡ found r
inserted none r h = refl
inserted (some q) r h = cc

pub inserted_found :
    (old : Option (List Bytes)) (r q : List Bytes)
    → row_answer old ≡ found q
    → row_answer (kept_or old r) ≡ found q
inserted_found none r q h = cc
inserted_found (some p) r q h = h

pub updated :
    (old : Option (List Bytes)) (r q : List Bytes)
    → row_answer old ≡ found q
    → row_answer (changed_to old r) ≡ found r
updated none r q h = cc
updated (some p) r q h = refl

abbrev pub toy_db : Db
toy_db = record {
  State = Tables;
  replace_row = λ s t k r. some (write s t k (some r));
  delete_row = λ s t k. some (write s t k none);
  select_row = λ s t k. row_answer (s t k);
  insert_row = λ s t k r. some (write s t k (kept_or (s t k) r));
  update_row = λ s t k r. some (write s t k (changed_to (s t k) r));
  select-replace = λ s s' t k r h alive. selected s s' t k (some r) h;
  select-insert =
      λ s s' t k r h old alive. selected s s' t k (kept_or (s t k) r) h ∙ inserted (s t k) r old;
  select-insert_found = λ s s' t k r q h old alive.
      selected s s' t k (kept_or (s t k) r) h ∙ inserted_found (s t k) r q old;
  select-update = λ s s' t k r q h old alive.
      selected s s' t k (changed_to (s t k) r) h ∙ updated (s t k) r q old;
  select-delete = λ s s' t k h alive. selected s s' t k none h;
  replace_elsewhere = λ s s' t t' k k' r. untouched s s' t t' k k' (some r);
  delete_elsewhere = λ s s' t t' k k'. untouched s s' t t' k k' none;
}

abbrev Cached : Type 0
Cached = Bytes → Option Bytes

abbrev keep : Cached → Bytes → Option Bytes → Cached
keep s k v = λ k'. if bytes_eq k k' then v else s k'

keep_at : (s : Cached) (k : Bytes) (v : Option Bytes) → keep s k v k ≡ v
keep_at s k v = rw (bytes_eq_refl k) refl

pub keep_set : (s : Cached) (k v w : Bytes) → keep s k (some v) k ≡ some w → w ≡ v
keep_set s k v w h = ground (arith, keep_at s k (some v))

pub keep_removed : (s : Cached) (k : Bytes) → keep s k none k ≡ none
keep_removed s k = keep_at s k none

pub keep_other :
    (s : Cached) (k k' : Bytes) (v : Option Bytes) (w : Bytes)
    → k ≢ k'
    → keep s k v k' ≡ some w
    → s k' ≡ some w
keep_other s k k' v w differ h =
    sym (ap (λ (b : Bool). if b then v else s k') (bytes_eq-ne k k' differ)) ∙ h

abbrev pub toy_cache : Cache
toy_cache = record {
  State = Cached;
  set = λ s now k v. keep s k (some v);
  remove = λ s k. keep s k none;
  lookup = λ s now k. s k;
  lookup-set = λ s now later. keep_set s;
  lookup-set_other = λ s now later k k' v. keep_other s k k' (some v);
  lookup-remove = λ s later. keep_removed s;
  lookup-remove_other = λ s later k k'. keep_other s k k' none;
}

take-pad : (n : ℕ) (u : Bytes) → length u ≤ n → take (length u) (pad n u) ≡ u
take-pad n [] h = refl
take-pad zero (x ∷ u) h = absurd (omega arith)
take-pad (suc n) (x ∷ u) h = ap (◌∷◌ x) (take-pad n u (omega arith))

pub scan_pad :
    (u : Bytes) → length u ≡ 16 → ◌≡◌ {A = Option Bytes} (some (take 16 (pad 36 u))) (some u)
scan_pad u h = ap some (subst (λ (n : ℕ). take n (pad 36 u) ≡ u) h (take-pad 36 u (omega arith)))

abbrev parse_time : Bytes → Option ℕ
parse_time [] = none
parse_time (t ∷ _) = some (t - t % 1000000000)

abbrev pub toy_env : Env
toy_env = record {
  crypto = toy;
  db = toy_db;
  outbox = toy_outbox;
  cache = toy_cache;
  sha512 = pad 64;
  base64 = λ b. b;
  from_base64 = some;
  hex = toy_hex;
  rfc3339 = λ t. t ∷ [];
  time_string = λ t. [];
  parse_rfc3339 = parse_time;
  ip_string = λ ip. ip;
  parse_ip = λ t. t;
  uuid_string = pad 36;
  scan_uuid = λ t. some (take 16 t);
  unmarshal_signal = λ b. zero_signal;
  length-sha512 = length-pad 64;
  from_base64-base64 = λ b. refl;
  parse_rfc3339-time_string = λ t. refl;
  parse_rfc3339-rfc3339 = λ t. refl;
  unmarshal_signal-bad = λ b rest h. refl;
  scan_uuid-uuid_string = scan_pad;
  length-uuid_string = length-pad 36;
}

-- A store with nothing in it.
abbrev pub empty_store : Store toy_env
empty_store = record { tables = λ t k. none; queue = []; cached = λ k. none }
