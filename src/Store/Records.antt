-- ===== src/Store/Records.antt =====
-- store/: what `Add` and `Update` write of the peers and the profile is read back, and so are files.
use end_to_end_chat.Base.{
  ℕ, ◌≡◌, ◌≢◌, refl, sym, ap, ◌∙◌, Bytes, List, [], ◌∷◌, none, some, Option-cases, inl, inr, ◌⊎◌,
  length, false, Bool-cases, bytes_eq, bytes_eq→eq, arith,
}
use end_to_end_chat.Base.Outcome.{ok, err}
use end_to_end_chat.Config.{nonce_size}
use end_to_end_chat.Signal.Defs.{IsKey, IsUuid, nil_uuid}
use end_to_end_chat.Keys.Defs.{to_string}
use end_to_end_chat.Keys.RoundTrip.{from_hex-to_string}
use end_to_end_chat.Store.Defs.{
  Env, Store, files, known_peers, profile, Answer, failed, no_rows, found, exec_failed,
}
use end_to_end_chat.Store.Secret.{decrypt_raw-encrypt_raw}
use end_to_end_chat.Store.Files.{put_file, get_file, opened_file}
use end_to_end_chat.Store.Peers.{
  KnownPeer, add_peer, get_peer, peer_row, peer_of_row, found_peer, scan_id,
}
use end_to_end_chat.Store.Profile.{
  row_id, get_profile, update_profile, found_profile, profile_of_row, picture_text,
}

module _ (e : Env) where
  pub scan_id-uuid_string : (u : Bytes) → IsUuid u → scan_id e (e.uuid_string u) ≡ ok u
  unfolding scan_id
  scan_id-uuid_string u fits =
      go (e.uuid_string u) (e.length-uuid_string u) (e.scan_uuid-uuid_string u fits)
    where
      go : (t : Bytes) → length t ≡ 36 → e.scan_uuid t ≡ some u → scan_id e t ≡ ok u
      go [] long h = absurd (omega arith)
      go (x ∷ t) long h = rw h refl

  -- A peer with the address in the form that `ParseIP` gives is added, or the statement fails and
  -- changes nothing. Where the database answers, it is read back as it was, but for the time at
  -- which it was seen last, which is lost, and for the flag `Online`, which is not stored.
  pub get_peer-add_peer :
      (peer : KnownPeer) (s : Store e)
      → IsKey peer.pub_key
      → IsUuid peer.profile_pic
      → e.parse_ip (e.ip_string peer.peer_ip) ≡ peer.peer_ip
      → (add_peer e peer s ≡ (s, err exec_failed))
        ⊎ ((s' : Store e) × (add_peer e peer s ≡ (s', ok tt))
            × (e.db.select_row s'.tables known_peers (to_string e.hex peer.pub_key) ≢ failed
                → get_peer e peer.pub_key s'
                  ≡ ok (record peer { last_seen = none; online = false })))
  unfolding add_peer get_peer found_peer peer_of_row
  get_peer-add_peer peer s k u ip =
      elim (Option-cases
        (e.db.replace_row s.tables known_peers (to_string e.hex peer.pub_key) (peer_row e peer))) [
          | inl gone ↦ inl (rw gone refl)
          | inr (db, there) ↦ inr (
            record s { tables = db },
            rw there refl,
            λ alive.
                rw
                  (
                    e.db.select-replace s.tables db known_peers (to_string e.hex peer.pub_key)
                        (peer_row e peer) there alive,
                    from_hex-to_string e.hex peer.pub_key k,
                    scan_id-uuid_string peer.profile_pic u,
                    ip,
                    e.parse_rfc3339-time_string peer.last_seen,
                  )
                  refl,
          )
        ]

  -- A file is stored under a nonce of 12 bytes, or the statement fails and changes nothing. Where
  -- the database answers, it is read back.
  pub get_file-put_file :
      (nonce : Bytes) (now : ℕ) (secret id msg_id contents : Bytes) (s : Store e)
      → length nonce ≡ nonce_size
      → (put_file e nonce now secret id msg_id contents s ≡ (s, err exec_failed))
        ⊎ ((s' : Store e) × (put_file e nonce now secret id msg_id contents s ≡ (s', ok tt))
            × (e.db.select_row s'.tables files id ≢ failed → get_file e secret id s' ≡ ok contents))
  unfolding put_file get_file opened_file
  get_file-put_file nonce now secret id msg_id contents s h =
      let (raw, sealed, back) = decrypt_raw-encrypt_raw e secret nonce contents h in
      let row = raw ∷ msg_id ∷ e.rfc3339 now ∷ [] in
      elim (Option-cases (e.db.replace_row s.tables files id row)) [
        | inl gone ↦ inl (rw (sealed, gone) refl)
        | inr (db, there) ↦ inr (
          record s { tables = db },
          rw (sealed, there) refl,
          λ alive. rw (e.db.select-replace s.tables db files id row there alive) back,
        )
      ]

  -- The database refuses the row of a file under an id.
  abbrev pub NotStored : Bytes → Bytes → Bytes → Store e → Type 0
  NotStored secret id contents s =
      (row : List Bytes) × (e.db.replace_row s.tables files id row ≡ none)
      × (opened_file e secret (found row) ≡ ok contents)

  pub put_file-NotStored :
      (nonce : Bytes) (now : ℕ) (secret id msg_id contents : Bytes) (s : Store e)
      → length nonce ≡ nonce_size
      → put_file e nonce now secret id msg_id contents s ≡ (s, err exec_failed)
      → NotStored secret id contents s
  unfolding put_file opened_file
  put_file-NotStored nonce now secret id msg_id contents s h refused =
      let (raw, sealed, back) = decrypt_raw-encrypt_raw e secret nonce contents h in
      let row = raw ∷ msg_id ∷ e.rfc3339 now ∷ [] in
      elim (Option-cases (e.db.replace_row s.tables files id row)) [
        | inl gone ↦ (row, gone, back)
        | inr (db, there) ↦
            let done : put_file e nonce now secret id msg_id contents s
                ≡ (record s { tables = db }, ok tt) =
              rw (sealed, there) refl in
            absurd (cc (ap (λ p. p.1) refused, ap (λ p. p.1) done))
      ]

  picture_text-scan : (pic : Bytes) → IsUuid pic → scan_id e (picture_text e pic) ≡ ok pic
  picture_text-scan pic fits = elim (Bool-cases (bytes_eq pic nil_uuid)) [
    | inl same ↦ rw same (unset ∙ ap ok (sym (bytes_eq→eq pic nil_uuid same)))
    | inr other ↦ rw other (scan_id-uuid_string pic fits)
  ]
    where
      unset : scan_id e [] ≡ ok nil_uuid
      unset = unfold scan_id in refl

  -- `INSERT OR IGNORE` leaves a row, an old one or an empty one.
  row_there :
      (s : Store e) (db : e.db.State) (a : Answer)
      → e.db.insert_row s.tables profile row_id ([] ∷ [] ∷ []) ≡ some db
      → e.db.select_row s.tables profile row_id ≡ a
      → a ≢ failed
      → e.db.select_row db profile row_id ≢ failed
      → (row : List Bytes) × (e.db.select_row db profile row_id ≡ found row)
  row_there s db failed h same alive after = absurd (alive refl)
  row_there s db no_rows h same alive after =
      ([] ∷ [] ∷ [], e.db.select-insert s.tables db profile row_id _ h same after)
  row_there s db (found row) h same alive after =
      (row, e.db.select-insert_found s.tables db profile row_id _ row h same after)

  -- Where the database answers and its first statement does not fail, `Update` fails with its
  -- second statement, or the profile is read back as it was given.
  pub get_profile-update_profile :
      (name pic : Bytes) (s : Store e) (db : e.db.State)
      → IsUuid pic
      → e.db.insert_row s.tables profile row_id ([] ∷ [] ∷ []) ≡ some db
      → e.db.select_row s.tables profile row_id ≢ failed
      → e.db.select_row db profile row_id ≢ failed
      → (update_profile e name pic s ≡ (record s { tables = db }, err exec_failed))
        ⊎ ((s' : Store e) × (update_profile e name pic s ≡ (s', ok tt))
            × (e.db.select_row s'.tables profile row_id ≢ failed
                → get_profile e s' ≡ ok (record { name = name; profile_pic = pic })))
  unfolding update_profile get_profile found_profile profile_of_row
  get_profile-update_profile name pic s db fits inserted alive after =
      let (old, there) =
        row_there s db (e.db.select_row s.tables profile row_id) inserted refl alive after in
      elim (Option-cases (e.db.update_row db profile row_id row)) [
        | inl gone ↦ inl (rw (inserted, gone) refl)
        | inr (db', updated) ↦ inr (
          record s { tables = db' },
          rw (inserted, updated) refl,
          λ answers.
              rw
                (
                  e.db.select-update db db' profile row_id row old updated there answers,
                  picture_text-scan pic fits,
                )
                refl,
        )
      ]
    where
      row : List Bytes
      row = name ∷ picture_text e pic ∷ []
