-- ===== src/Store/Profile.antt =====
-- store/profile.go: the name and the picture of the client. The row 1 is under the empty key.
use end_to_end_chat.Base.{Bytes, List, [], ◌∷◌, bytes_eq, if◌then◌else◌}
use end_to_end_chat.Base.Outcome.{Outcome, ok, err, ◌>>=◌}
use end_to_end_chat.Base.Op.{Op}
use end_to_end_chat.Signal.Defs.{ascii, nil_uuid}
use end_to_end_chat.Store.Defs.{
  Env, Store, StoreError, profile, Answer, failed, no_rows, found, query_failed,
}
use end_to_end_chat.Store.Statements.{executed, tried}
use end_to_end_chat.Store.Peers.{scan_id}

pub record Profile : Type 0 where
  pub name : Bytes
  pub profile_pic : Bytes

abbrev pub row_id : Bytes
row_id = []

module _ (e : Env) where
  unfoldable pub profile_of_row : List Bytes → Outcome StoreError Profile
  profile_of_row (name ∷ pic ∷ []) = do
    profile_pic ← scan_id e pic
    ok (record { name = name; profile_pic = profile_pic })
  profile_of_row other = err query_failed

  unfoldable pub found_profile : Answer → Outcome StoreError Profile
  unfolding profile_of_row
  found_profile failed = err query_failed
  found_profile no_rows = ok (record { name = ascii ""; profile_pic = nil_uuid })
  found_profile (found row) = profile_of_row row

  -- `(*ProfileStore).Get`
  unfoldable pub get_profile : Store e → Outcome StoreError Profile
  unfolding found_profile
  get_profile s = found_profile (e.db.select_row s.tables profile row_id)

  -- `idStr`
  abbrev pub picture_text : Bytes → Bytes
  picture_text pic = if bytes_eq pic nil_uuid then ascii "" else e.uuid_string pic

  -- `(*ProfileStore).Update`: the error of the first statement is dropped.
  unfoldable pub update_profile : Bytes → Bytes → Op (Store e) StoreError (Unit {0})
  unfolding tried executed
  update_profile name pic s =
      let s' = tried e s (e.db.insert_row s.tables profile row_id (ascii "" ∷ ascii "" ∷ [])) in
      executed e s' (e.db.update_row s'.tables profile row_id (name ∷ picture_text pic ∷ []))
