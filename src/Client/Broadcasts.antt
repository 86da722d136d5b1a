-- ===== src/Client/Broadcasts.antt =====
-- client/client.go: what goes to all sessions. `visits` are the sessions in the order in which
-- `Range` comes to them.
use end_to_end_chat.Base.{ℕ, Bytes, List, [], ◌∷◌, Option, none, some, pos}
use end_to_end_chat.Base.Outcome.{map_err}
use end_to_end_chat.Base.Op.{return, lift, attempt}
use end_to_end_chat.Signal.Defs
use end_to_end_chat.Signal.Defs.{nil_uuid}
use end_to_end_chat.Signal.New.{new}
use end_to_end_chat.Store.Defs.{Draws, Env}
use end_to_end_chat.Store.Profile.{update_profile}
use end_to_end_chat.Client.State.{
  ◌>>=◌, Handler, Net, gets, on_store, send_to, bad_signal, store_failed,
}
use end_to_end_chat.Client.Peers.{info}
use end_to_end_chat.Client.Sending.{send_message, new_message}
use end_to_end_chat.Client.Outbox.{queue_signal}

module _ (e : Env) where
  -- The errors are logged.
  unfoldable pub each_session :
      {A : Type 0} → (A → Handler e (Unit {0})) → List A → Handler e (Unit {0})
  each_session f [] = return tt
  each_session f (a ∷ rest) = do _ ← attempt (f a); each_session f rest

  -- A line to one session, with the time of the broadcast.
  abbrev pub send_line : Net → ℕ → Bytes → Draws × ℕ → Handler e (Unit {0})
  send_line net now content visit = λ c.
      send_message e net visit.1 visit.0
        (record (new_message visit.0 (c.objects visit.1).peer.name content []) { time = pos now }) c

  unfoldable pub send_to_all : Net → ℕ → List (Draws × ℕ) → Bytes → Handler e (Unit {0})
  unfolding each_session
  send_to_all net now visits content = each_session (send_line net now content) visits

  -- The same packet to every session.
  unfoldable pub broadcast : Net → List ℕ → Defs.SignalType → Bytes → Bytes → Handler e (Unit {0})
  unfolding each_session
  broadcast net visits typ id content = do
    public ← gets e λ c. c.public
    sig ← lift (map_err bad_signal (new typ public id content))
    each_session (λ h. send_to e net h sig) visits

  unfoldable pub broadcast_delete : Net → List ℕ → Bytes → Handler e (Unit {0})
  unfolding broadcast
  broadcast_delete net visits id = broadcast net visits Defs.delete id []

  unfoldable pub broadcast_update : Net → List ℕ → Bytes → Bytes → Handler e (Unit {0})
  unfolding broadcast
  broadcast_update net visits id content = broadcast net visits Defs.update id content

  unfoldable pub informed_or_queued : Draws → ℕ → Bytes → Option (Unit {0}) → Handler e (Unit {0})
  informed_or_queued d h sig none = λ c. queue_signal e d (c.objects h).peer.static_pub_key sig c
  informed_or_queued d h sig (some _) = return tt

  unfoldable pub inform : Net → Bytes → Draws × ℕ → Handler e (Unit {0})
  unfolding informed_or_queued
  inform net sig visit = do
    sent ← attempt (send_to e net visit.1 sig)
    informed_or_queued visit.0 visit.1 sig sent

  unfoldable pub broadcast_info_changed : Net → List (Draws × ℕ) → Handler e (Unit {0})
  unfolding each_session inform
  broadcast_info_changed net visits = do
    public ← gets e λ c. c.public
    sig ← lift (map_err bad_signal (new Defs.info_changed public nil_uuid []))
    each_session (inform net sig) visits

  unfoldable pub set_name : Bytes → Handler e (Option (Unit {0}))
  set_name name =
      attempt (on_store e store_failed λ c. update_profile e name (info e c).profile_pic)
