-- ===== src/Store/Statements.antt =====
-- store/: what the tables have in common: the statements by primary key.
use end_to_end_chat.Base.{Bytes, List, Option, none, some}
use end_to_end_chat.Base.Outcome.{Outcome, ok, err}
use end_to_end_chat.Base.Op.{Op}
use end_to_end_chat.Store.Defs.{Table, Env, Store, StoreError, exec_failed}

module _ (e : Env) where
  -- The outcome of a statement: the new tables, if it did not fail.
  unfoldable pub executed : Store e → Option e.db.State → Store e × Outcome StoreError (Unit {0})
  executed s none = (s, err exec_failed)
  executed s (some db) = (record s { tables = db }, ok tt)

  abbrev pub replace : Table → Bytes → List Bytes → Op (Store e) StoreError (Unit {0})
  replace t id row = λ s. executed s (e.db.replace_row s.tables t id row)

  abbrev pub remove_row : Table → Bytes → Op (Store e) StoreError (Unit {0})
  remove_row t id = λ s. executed s (e.db.delete_row s.tables t id)

  -- A statement whose error is dropped.
  unfoldable pub tried : Store e → Option e.db.State → Store e
  tried s none = s
  tried s (some db) = record s { tables = db }
