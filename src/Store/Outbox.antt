-- ===== src/Store/Outbox.antt =====
-- store/outbox.go: the signals that wait for their peer.
pub mod Laws
pub mod Rows
use end_to_end_chat.Base.{ℕ, Bytes, List, [], ◌∷◌, Option, none, some}
use end_to_end_chat.Base.Outcome.{Outcome, ok, err, ◌>>=◌}
use end_to_end_chat.Base.Op.{Op}
use end_to_end_chat.Signal.Defs.{SignalType}
use end_to_end_chat.Keys.Defs.{to_string, from_hex}
use end_to_end_chat.Store.Defs.{
  Env, Store, StoreError, OutboxRow, query_failed, exec_failed, bad_time,
}
use end_to_end_chat.Store.Secret.{encrypt_raw, decrypt_raw, or_fail}
use end_to_end_chat.Store.Peers.{scan_id, scanned}

pub record OutboxSignal : Type 0 where
  pub id : Bytes
  pub target_pub_key : Bytes
  pub signal_type : SignalType
  pub signal_from : Bytes
  pub signal_id : Bytes
  pub signal_content : Bytes
  pub created_at : ℕ
  pub retry_count : ℕ

-- `for rows.Next()`, which the first error ends.
unfoldable pub each_row :
    (OutboxRow → Outcome StoreError OutboxSignal)
    → List OutboxRow
    → Outcome StoreError (List OutboxSignal)
each_row f [] = ok []
each_row f (row ∷ rows) = do entry ← f row; rest ← each_row f rows; ok (entry ∷ rest)

module _ (e : Env) where
  -- The outcome of a statement on the outbox.
  unfoldable pub queued :
      {A : Type 0} → Store e → Option e.outbox.State → A → Store e × Outcome StoreError A
  queued s none a = (s, err exec_failed)
  queued s (some q) a = (record s { queue = q }, ok a)

  abbrev pub outbox_row : ℕ → Bytes → Bytes → Bytes → Bytes → OutboxRow
  outbox_row now fresh target raw encrypted =
      let meta = e.unmarshal_signal raw in
      record {
        id = e.uuid_string fresh;
        target = to_string e.hex target;
        typ = meta.typ;
        from = to_string e.hex meta.from;
        signal_id = e.uuid_string meta.id;
        content = encrypted;
        created_at = e.rfc3339 now;
        retry_count = 0;
      }

  inserted :
      ℕ
      → Bytes
      → Bytes
      → Bytes
      → Store e
      → Outcome StoreError Bytes
      → Store e × Outcome StoreError Bytes
  inserted now fresh target raw s (ok encrypted) =
      queued s (e.outbox.insert s.queue (outbox_row now fresh target raw encrypted)) fresh
  inserted now fresh target raw s (err x) = (s, err x)
  inserted now fresh target raw s (Outcome.panic p) = (s, Outcome.panic p)

  -- `(*OutboxStore).Put`, under the nonce that `encryptRaw` draws and the id that `uuid.New` draws.
  unfoldable pub put_outbox :
      Bytes → ℕ → Bytes → Bytes → Bytes → Bytes → Op (Store e) StoreError Bytes
  unfolding inserted queued
  put_outbox nonce now fresh target raw secret s =
      inserted now fresh target raw s (encrypt_raw e secret nonce raw)

  -- `Scan` of a row, without the content.
  unfoldable pub scanned_entry : OutboxRow → Outcome StoreError OutboxSignal
  unfolding scan_id
  scanned_entry row = do
    id ← scan_id e row.id
    target ← scanned (from_hex e.hex row.target)
    from ← scanned (from_hex e.hex row.from)
    signal_id ← scan_id e row.signal_id
    created_at ← or_fail (e.parse_rfc3339 row.created_at) bad_time
    ok (record {
      id = id;
      target_pub_key = target;
      signal_type = row.typ;
      signal_from = from;
      signal_id = signal_id;
      signal_content = [];
      created_at = created_at;
      retry_count = row.retry_count;
    })

  -- The same with the content, in the loop of `Get`.
  unfoldable pub opened_entry : Bytes → OutboxRow → Outcome StoreError OutboxSignal
  unfolding scanned_entry
  opened_entry secret row = do
    entry ← scanned_entry row
    plain ← decrypt_raw e secret row.content
    ok (record entry { signal_content = plain })

  -- `(*OutboxStore).Get`
  unfoldable pub get_outbox : Bytes → Bytes → Store e → Outcome StoreError (List OutboxSignal)
  unfolding each_row opened_entry
  get_outbox target secret s = do
    rows ← or_fail (e.outbox.of_target s.queue (to_string e.hex target)) query_failed
    each_row (opened_entry secret) rows

  -- `(*OutboxStore).List`
  unfoldable pub list_outbox : Store e → Outcome StoreError (List OutboxSignal)
  unfolding each_row scanned_entry
  list_outbox s = do rows ← or_fail (e.outbox.all s.queue) query_failed; each_row scanned_entry rows

  -- `(*OutboxStore).Delete`
  unfoldable pub delete_entry : Bytes → Op (Store e) StoreError (Unit {0})
  unfolding queued
  delete_entry id s = queued s (e.outbox.delete s.queue (e.uuid_string id)) tt

  -- `(*OutboxStore).IncrementRetry`
  unfoldable pub increment_retry : Bytes → Op (Store e) StoreError (Unit {0})
  unfolding queued
  increment_retry id s = queued s (e.outbox.increment s.queue (e.uuid_string id)) tt
