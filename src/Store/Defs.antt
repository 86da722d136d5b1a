-- ===== src/Store/Defs.antt =====
-- What the store uses of other code: an SQL database (`database/sql` with SQLite), a cache with
-- expiry (`go-cache`), and SHA-512, base64 and the format of times of Go's standard library.
use mathlib.Core.List.{Permᴰ}
use end_to_end_chat.Base.{
  ℕ, ◌≡◌, ◌≢◌, ◌<◌, ◌+◌, ◌-◌, ◌%◌, Bytes, List, [], ◌∷◌, length, Option, none, some, bytes_eq,
  if◌then◌else◌,
}
use end_to_end_chat.Client.Crypto.{Crypto}
use end_to_end_chat.Keys.Defs.{Hex, nil_key}
use end_to_end_chat.Signal.Defs.{Signal, IsUuid, nil_uuid}

pub data Table : Type 0 where
  chats chat_search files known_peers profile : Table

-- What a query by primary key gives.
pub data Answer : Type 0 where
  failed no_rows : Answer
  found : List Bytes → Answer

-- A row is the list of its columns but the primary key, which is an id. `none` is a statement that
-- failed; it leaves the database as it was. Whether a query fails is part of the state: a statement
-- leaves the answer to the query for another row as it was, also where that is a failure.
pub record Db : Type 1 where
  pub State : Type 0
  -- INSERT OR REPLACE INTO t (id, ...) VALUES (k, ...)
  pub replace_row : State → Table → Bytes → List Bytes → Option State
  -- DELETE FROM t WHERE id = k
  pub delete_row : State → Table → Bytes → Option State
  -- SELECT ... FROM t WHERE id = k
  pub select_row : State → Table → Bytes → Answer
  -- INSERT OR IGNORE INTO t (id, ...) VALUES (k, ...)
  pub insert_row : State → Table → Bytes → List Bytes → Option State
  -- UPDATE t SET ... WHERE id = k
  pub update_row : State → Table → Bytes → List Bytes → Option State
  pub select-replace :
      (s s' : State) (t : Table) (k : Bytes) (r : List Bytes)
      → replace_row s t k r ≡ some s'
      → select_row s' t k ≢ failed
      → select_row s' t k ≡ found r
  pub select-insert :
      (s s' : State) (t : Table) (k : Bytes) (r : List Bytes)
      → insert_row s t k r ≡ some s'
      → select_row s t k ≡ no_rows
      → select_row s' t k ≢ failed
      → select_row s' t k ≡ found r
  pub select-insert_found :
      (s s' : State) (t : Table) (k : Bytes) (r q : List Bytes)
      → insert_row s t k r ≡ some s'
      → select_row s t k ≡ found q
      → select_row s' t k ≢ failed
      → select_row s' t k ≡ found q
  pub select-update :
      (s s' : State) (t : Table) (k : Bytes) (r q : List Bytes)
      → update_row s t k r ≡ some s'
      → select_row s t k ≡ found q
      → select_row s' t k ≢ failed
      → select_row s' t k ≡ found r
  pub select-delete :
      (s s' : State) (t : Table) (k : Bytes)
      → delete_row s t k ≡ some s'
      → select_row s' t k ≢ failed
      → select_row s' t k ≡ no_rows
  pub replace_elsewhere :
      (s s' : State) (t t' : Table) (k k' : Bytes) (r : List Bytes)
      → replace_row s t k r ≡ some s'
      → ◌≢◌ {A = Table × Bytes} (t, k) (t', k')
      → select_row s' t' k' ≡ select_row s t' k'
  pub delete_elsewhere :
      (s s' : State) (t t' : Table) (k k' : Bytes)
      → delete_row s t k ≡ some s'
      → ◌≢◌ {A = Table × Bytes} (t, k) (t', k')
      → select_row s' t' k' ≡ select_row s t' k'

-- A row of the table `outbox`: the texts of its columns, the count an integer.
pub record OutboxRow : Type 0 where
  pub id : Bytes
  pub target : Bytes
  pub typ : Bytes
  pub from : Bytes
  pub signal_id : Bytes
  pub content : Bytes
  pub created_at : Bytes
  pub retry_count : ℕ

abbrev pub rows_but : Bytes → List OutboxRow → List OutboxRow
rows_but k [] = []
rows_but k (r ∷ rows) = let rest = rows_but k rows in if bytes_eq k r.id then rest else r ∷ rest

abbrev pub counted : Bytes → List OutboxRow → List OutboxRow
counted k [] = []
counted k (r ∷ rows) =
    let rest = counted k rows in
    if bytes_eq k r.id then record r { retry_count = r.retry_count + 1 } ∷ rest else r ∷ rest

-- The table `outbox`, which no statement touches together with another table. `none` is a statement
-- or a query that failed. The time of a row has no fractions of a second, and rows of the same time
-- come in an order that is not documented: what the queries give is known up to the order.
pub record Outbox : Type 1 where
  pub State : Type 0
  -- INSERT INTO outbox (...) VALUES (...), with a retry_count of 0
  pub insert : State → OutboxRow → Option State
  -- DELETE FROM outbox WHERE id = k
  pub delete : State → Bytes → Option State
  -- UPDATE outbox SET retry_count = retry_count + 1 WHERE id = k
  pub increment : State → Bytes → Option State
  -- SELECT ... FROM outbox WHERE target_pub_key = t ORDER BY created_at
  pub of_target : State → Bytes → Option (List OutboxRow)
  -- SELECT ... FROM outbox ORDER BY created_at
  pub all : State → Option (List OutboxRow)
  pub of_target-insert :
      (s s' : State) (r : OutboxRow) (rows rows' : List OutboxRow)
      → insert s r ≡ some s'
      → of_target s r.target ≡ some rows
      → of_target s' r.target ≡ some rows'
      → Permᴰ (r ∷ rows) rows'
  pub of_target-delete :
      (s s' : State) (k t : Bytes) (rows rows' : List OutboxRow)
      → delete s k ≡ some s'
      → of_target s t ≡ some rows
      → of_target s' t ≡ some rows'
      → Permᴰ (rows_but k rows) rows'
  pub of_target-increment :
      (s s' : State) (k t : Bytes) (rows rows' : List OutboxRow)
      → increment s k ≡ some s'
      → of_target s t ≡ some rows
      → of_target s' t ≡ some rows'
      → Permᴰ (counted k rows) rows'

-- An entry can be gone at any time, since it expires; what is there is what was set last.
pub record Cache : Type 1 where
  pub State : Type 0
  pub set : State → ℕ → Bytes → Bytes → State
  pub remove : State → Bytes → State
  pub lookup : State → ℕ → Bytes → Option Bytes
  pub lookup-set :
      (s : State) (now later : ℕ) (k v w : Bytes) → lookup (set s now k v) later k ≡ some w → w ≡ v
  pub lookup-set_other :
      (s : State) (now later : ℕ) (k k' v w : Bytes)
      → k ≢ k'
      → lookup (set s now k v) later k' ≡ some w
      → lookup s later k' ≡ some w
  pub lookup-remove : (s : State) (later : ℕ) (k : Bytes) → lookup (remove s k) later k ≡ none
  pub lookup-remove_other :
      (s : State) (later : ℕ) (k k' w : Bytes)
      → k ≢ k'
      → lookup (remove s k) later k' ≡ some w
      → lookup s later k' ≡ some w

-- `signal.Signal{}`
abbrev pub zero_signal : Signal
zero_signal = record { typ = []; from = nil_key; id = nil_uuid; content = [] }

pub record Env : Type 1 where
  pub crypto : Crypto
  pub db : Db
  pub outbox : Outbox
  pub cache : Cache
  pub sha512 : Bytes → Bytes
  pub base64 : Bytes → Bytes
  pub from_base64 : Bytes → Option Bytes
  pub hex : Hex
  -- `Format(time.RFC3339)` of a time that is its `UnixNano`
  pub rfc3339 : ℕ → Bytes
  -- `(time.Time).String`, where `none` is the zero time, and `time.Parse(time.RFC3339, ...)`
  pub time_string : Option ℕ → Bytes
  pub parse_rfc3339 : Bytes → Option ℕ
  -- `(net.IP).String` and `net.ParseIP`
  pub ip_string : Bytes → Bytes
  pub parse_ip : Bytes → Bytes
  -- `(uuid.UUID).String`, and `(*uuid.UUID).Scan` of a text that is not empty
  pub uuid_string : Bytes → Bytes
  pub scan_uuid : Bytes → Option Bytes
  -- `json.Unmarshal` into an empty `signal.Signal`, whose error is dropped
  pub unmarshal_signal : Bytes → Signal
  pub length-sha512 : (b : Bytes) → length (sha512 b) ≡ 64
  pub from_base64-base64 : (b : Bytes) → from_base64 (base64 b) ≡ some b
  -- `String` writes no `T` between the date and the time, which RFC 3339 asks for.
  pub parse_rfc3339-time_string : (t : Option ℕ) → parse_rfc3339 (time_string t) ≡ none
  -- RFC 3339 without fractions: the time up to the second.
  pub parse_rfc3339-rfc3339 : (t : ℕ) → parse_rfc3339 (rfc3339 t) ≡ some (t - t % 1000000000)
  -- No JSON text begins with a byte below 2, and a text that is not valid changes nothing.
  pub unmarshal_signal-bad :
      (b : ℕ) (rest : Bytes) → b < 2 → unmarshal_signal (b ∷ rest) ≡ zero_signal
  pub scan_uuid-uuid_string : (u : Bytes) → IsUuid u → scan_uuid (uuid_string u) ≡ some u
  pub length-uuid_string : (u : Bytes) → length (uuid_string u) ≡ 36

pub data StoreError : Type 0 where
  new_cipher invalid_ciphertext open_failed bad_base64 : StoreError
  not_exist query_failed exec_failed bad_time : StoreError

-- A store: the database, the outbox apart, and the cache of decrypted messages.
pub record Store (e : Env) : Type 0 where
  pub tables : e.db.State
  pub queue : e.outbox.State
  pub cached : e.cache.State

-- What an operation draws: a nonce for the store, a fresh id and the time.
pub record Draws : Type 0 where
  pub nonce : Bytes
  pub fresh : Bytes
  pub now : ℕ
