-- ===== src/Client/Session/Defs.antt =====
-- client/session.go: the state of a session. The websocket connection is not part of it: what it
-- does with a packet is an argument of the operations that write or read.
use end_to_end_chat.Base.{ℕ, Bytes, Option, none, replicate}
use end_to_end_chat.Signal.Defs
use end_to_end_chat.Signal.Defs.{ascii}
use end_to_end_chat.Keys.Defs.{nil_key}
use end_to_end_chat.Store.Peers.{PeerStatus}
use end_to_end_chat.Client.Codec.KeyExchange.{KeyExchangeError}
use end_to_end_chat.Client.RateLimit.{MsgLimiter, new_msg_limiter}

pub record PeerInfo : Type 0 where
  pub name : Bytes
  pub ephemeral_key : Bytes
  pub static_pub_key : Bytes

-- A nil key is `none`.
pub record CipherState : Type 0 where
  pub key : Option Bytes
  pub nonce : ℕ

-- `our_seed` is the private half of `ourKeys`, with which it signs.
pub record Session : Type 0 where
  pub our_name : Bytes
  pub our_static : Bytes
  pub our_seed : Bytes
  pub sendr : CipherState
  pub recv : CipherState
  pub peer : PeerInfo
  pub stat : PeerStatus
  pub msg_limiter : MsgLimiter

pub data SessionError : Type 0 where
  no_key new_cipher data_too_short nonce_mismatch open_failed : SessionError
  write_failed read_failed : SessionError
  no_static_key connect_to_self verification_failed : SessionError
  bad_peer_key shared_secret_failed : SessionError
  signal_failed : Defs.Error → SessionError
  parse_failed : Defs.Error → SessionError
  unexpected_type : Bytes → SessionError
  decode_failed : KeyExchangeError → SessionError

unfoldable pub new_session : Bytes → Bytes → Bytes → ℕ → ℕ → ℕ → Session
new_session our_name our_static our_seed rate_limit rate_window now = record {
  our_name = our_name;
  our_static = our_static;
  our_seed = our_seed;
  sendr = record { key = none; nonce = 0 };
  recv = record { key = none; nonce = 0 };
  peer = record { name = replicate 0 0; ephemeral_key = nil_key; static_pub_key = nil_key };
  stat = ascii "";
  msg_limiter = new_msg_limiter rate_limit rate_window now;
}

unfoldable pub set_status : Session → PeerStatus → Session
set_status s status = record s { stat = status }
