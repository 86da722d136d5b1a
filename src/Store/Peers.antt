-- ===== src/Store/Peers.antt =====
-- store/peers.go: the known peers. A row holds the texts of the columns; a column is never NULL,
-- since `Add` writes all of them.
use end_to_end_chat.Base.{ℕ, Bytes, List, [], ◌∷◌, Option, none, some, Bool, false}
use end_to_end_chat.Base.Outcome.{Outcome, ok, err, map_err, ◌>>=◌}
use end_to_end_chat.Base.Op.{Op}
use end_to_end_chat.Signal.Defs.{ascii, nil_uuid}
use end_to_end_chat.Keys.Defs.{to_string, from_hex}
use end_to_end_chat.Store.Defs.{
  Env, Store, StoreError, known_peers, Answer, failed, no_rows, found, not_exist, query_failed,
}
use end_to_end_chat.Store.Statements.{executed, replace}

-- `type PeerStatus string`. A new session has the empty text.
abbrev pub PeerStatus : Type 0
PeerStatus = Bytes

abbrev pub pending : PeerStatus
pending = ascii "pending"

abbrev pub accepted : PeerStatus
accepted = ascii "accepted"

abbrev pub rejected : PeerStatus
rejected = ascii "rejected"

-- A zero time is `none`, a nil IP is empty.
pub record KnownPeer : Type 0 where
  pub peer_ip : Bytes
  pub pub_key : Bytes
  pub name : Bytes
  pub nickname : Bytes
  pub status : PeerStatus
  pub online : Bool
  pub last_seen : Option ℕ
  pub profile_pic : Bytes

-- An error of `Scan` is an error of the query.
abbrev pub scanned : {E A : Type 0} → Outcome E A → Outcome StoreError A
scanned r = map_err (λ _. query_failed) r

module _ (e : Env) where
  -- `Scan` into a `uuid.UUID`: an empty text leaves it as it is, which is nil.
  unfoldable pub scan_id : Bytes → Outcome StoreError Bytes
  scan_id [] = ok nil_uuid
  scan_id (x ∷ t) = scanned_id (e.scan_uuid (x ∷ t))
    where
      scanned_id : Option Bytes → Outcome StoreError Bytes
      scanned_id none = err query_failed
      scanned_id (some u) = ok u

  unfoldable pub peer_row : KnownPeer → List Bytes
  peer_row peer =
      e.ip_string peer.peer_ip
      ∷ peer.name
      ∷ peer.nickname
      ∷ peer.status
      ∷ e.time_string peer.last_seen
      ∷ e.uuid_string peer.profile_pic
      ∷ []

  -- `(*KnownPeerStore).Add`
  unfoldable pub add_peer : KnownPeer → Op (Store e) StoreError (Unit {0})
  unfolding executed peer_row
  add_peer peer = replace e known_peers (to_string e.hex peer.pub_key) (peer_row peer)

  -- `Scan` of a row, and the parsing behind it. The error of `time.Parse` is dropped.
  unfoldable pub peer_of_row : Bytes → List Bytes → Outcome StoreError KnownPeer
  unfolding scan_id
  peer_of_row key (ip ∷ name ∷ nickname ∷ status ∷ last_seen ∷ pic ∷ []) = do
    pub_key ← scanned (from_hex e.hex key)
    profile_pic ← scan_id pic
    ok (record {
      peer_ip = e.parse_ip ip;
      pub_key = pub_key;
      name = name;
      nickname = nickname;
      status = status;
      online = false;
      last_seen = e.parse_rfc3339 last_seen;
      profile_pic = profile_pic;
    })
  peer_of_row key other = err query_failed

  unfoldable pub found_peer : Bytes → Answer → Outcome StoreError KnownPeer
  unfolding peer_of_row
  found_peer key failed = err query_failed
  found_peer key no_rows = err not_exist
  found_peer key (found row) = peer_of_row key row

  -- `(*KnownPeerStore).Get`
  unfoldable pub get_peer : Bytes → Store e → Outcome StoreError KnownPeer
  unfolding found_peer
  get_peer pub_key s =
      let key = to_string e.hex pub_key in found_peer key (e.db.select_row s.tables known_peers key)
