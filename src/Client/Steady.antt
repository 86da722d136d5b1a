-- ===== src/Client/Steady.antt =====
-- Which operations of the client leave the table of sessions alone, and of each session its peer
-- its status and the key under which it sends.
use end_to_end_chat.Base.{
  ℕ, ◌≡◌, refl, ap, ◌∙◌, Bytes, List, [], ◌∷◌, Bool, true, false, Bool-cases, Option, none, some,
  inl, inr, if◌then◌else◌, bytes_eq, ◌==◌, arith,
}
use end_to_end_chat.Base.Outcome.{Outcome, ok, err, panic}
use end_to_end_chat.Base.Op.{Op, after, forgive, attempt}
use end_to_end_chat.Store.Defs.{Env, Store, StoreError}
use end_to_end_chat.Store.Peers.{accepted}
use end_to_end_chat.Store.Outbox.{OutboxSignal, get_outbox}
use end_to_end_chat.Client.Session.Defs.{Session, SessionError}
use end_to_end_chat.Client.Session.Cipher.{send, encrypt, encrypt_under}
use end_to_end_chat.Client.State.{
  Client, Handler, Net, Warning, logged, on_store, then_do, set_object, send_to, session_of,
}
use end_to_end_chat.Client.Peers.{request_peer_info}
use end_to_end_chat.Client.Outbox.{
  after_entry, flush_entries, flush_ready, flush_read, flush_outbox,
}

module _ (e : Env) where
  pub record Steady (c c' : Client e) : Type 0 where
    pub sessions : c'.sessions ≡ c.sessions
    pub peers : (h : ℕ) → (c'.objects h).peer ≡ (c.objects h).peer
    pub statuses : (h : ℕ) → (c'.objects h).stat ≡ (c.objects h).stat
    pub keys : (h : ℕ) → (c'.objects h).sendr.key ≡ (c.objects h).sendr.key

  pub Steady-refl : {c : Client e} → Steady c c
  Steady-refl = record {
    sessions = refl;
    peers = λ h. refl;
    statuses = λ h. refl;
    keys = λ h. refl;
  }

  pub Steady-trans : {c d f : Client e} → Steady c d → Steady d f → Steady c f
  Steady-trans a b = record {
    sessions = b.sessions ∙ a.sessions;
    peers = λ h. b.peers h ∙ a.peers h;
    statuses = λ h. b.statuses h ∙ a.statuses h;
    keys = λ h. b.keys h ∙ a.keys h;
  }

  pub record IsSteady {A : Type 0} (m : Handler e A) : Type 0 where
    pub at : (c : Client e) → Steady c (m c).0

  after-Steady :
      {A B : Type 0} (c : Client e) (p : Client e × Outcome Warning A) (f : A → Handler e B)
      → Steady c p.0
      → ((a : A) → IsSteady (f a))
      → Steady c (after p f).0
  after-Steady c (d, ok a) f h k = Steady-trans h ((k a).at d)
  after-Steady c (d, err w) f h k = h
  after-Steady c (d, panic q) f h k = h

  pub then-IsSteady :
      {A B : Type 0} (m : Handler e A) (f : A → Handler e B)
      → IsSteady m
      → ((a : A) → IsSteady (f a))
      → IsSteady (then_do e m f)
  unfolding then_do
  then-IsSteady m f h k = record { at = λ c. after-Steady c (m c) f (h.at c) k }

  -- What reads the client leaves it as it is.
  pub reads-IsSteady : {A : Type 0} (f : Client e → Outcome Warning A) → IsSteady (λ c. (c, f c))
  reads-IsSteady f = record { at = λ c. Steady-refl }

  forgive-Steady :
      {A : Type 0} (c : Client e) (p : Client e × Outcome Warning A)
      → Steady c p.0
      → Steady c (forgive p).0
  forgive-Steady c (d, ok a) h = h
  forgive-Steady c (d, err w) h = h
  forgive-Steady c (d, panic q) h = h

  pub attempt-IsSteady : {A : Type 0} (m : Handler e A) → IsSteady m → IsSteady (attempt m)
  attempt-IsSteady m h = record { at = λ c. forgive-Steady c (m c) (h.at c) }

  pub on_store-IsSteady :
      {E A : Type 0} (wrap : E → Warning) (m : Client e → Op (Store e) E A)
      → IsSteady (on_store e wrap m)
  unfolding on_store
  on_store-IsSteady wrap m = record {
    at = λ c. record { sessions = refl; peers = λ h. refl; statuses = λ h. refl; keys = λ h. refl };
  }

  pub if-IsSteady :
      {A : Type 0} (b : Bool) (m n : Handler e A)
      → IsSteady m
      → IsSteady n
      → IsSteady (if b then m else n)
  if-IsSteady true m n h k = h
  if-IsSteady false m n h k = k

  -- Sending changes the key and the counter of the sender at most.
  send-peer :
      (write : Bytes → Outcome SessionError (Unit {0})) (s : Session) (plain : Bytes)
      → ((send e.crypto write s plain).0.peer ≡ s.peer)
        × ((send e.crypto write s plain).0.stat ≡ s.stat)
        × ((send e.crypto write s plain).0.sendr.key ≡ s.sendr.key)
  unfolding send encrypt encrypt_under
  send-peer write s plain = by_key s.sendr.key
    where
      by_key :
          (o : Option Bytes)
          → ((encrypt_under e.crypto s o plain).0.peer ≡ s.peer)
            × ((encrypt_under e.crypto s o plain).0.stat ≡ s.stat)
            × ((encrypt_under e.crypto s o plain).0.sendr.key ≡ s.sendr.key)
      by_key none = (refl, refl, refl)
      by_key (some key) = (refl, refl, refl)

  set_object-Steady :
      (h : ℕ) (s : Session) (c : Client e)
      → s.peer ≡ (c.objects h).peer
      → s.stat ≡ (c.objects h).stat
      → s.sendr.key ≡ (c.objects h).sendr.key
      → Steady c (set_object e h s c)
  unfolding set_object
  set_object-Steady h s c same same' same'' = record {
    sessions = refl;
    peers = λ k. at k (h == k) refl (λ s. s.peer) same;
    statuses = λ k. at k (h == k) refl (λ s. s.stat) same';
    keys = λ k. at k (h == k) refl (λ s. s.sendr.key) same'';
  }
    where
      at :
          {A : Type 0} (k : ℕ) (b : Bool)
          → (h == k) ≡ b
          → (f : Session → A) → f s ≡ f (c.objects h)
          → f (if h == k then s else c.objects k) ≡ f (c.objects k)
      at k true q f same = rw q (same ∙ ap (λ n. f (c.objects n)) (ground arith))
      at k false q f same = rw q refl

  logged-Steady :
      (h : ℕ) (plain : Bytes) (r : Outcome SessionError (Unit {0})) {c d : Client e}
      → Steady c d
      → Steady c (logged e h plain r d)
  logged-Steady h plain (ok _) b = record {
    sessions = b.sessions;
    peers = b.peers;
    statuses = b.statuses;
    keys = b.keys;
  }
  logged-Steady h plain (err _) b = b
  logged-Steady h plain (panic _) b = b

  pub send_to-IsSteady : (net : Net) (h : ℕ) (plain : Bytes) → IsSteady (send_to e net h plain)
  unfolding send_to
  send_to-IsSteady net h plain = record {
    at = λ c.
        let (peer, stat, key) = send-peer (net h) (c.objects h) plain in
        let (s, r) = send e.crypto (net h) (c.objects h) plain in
        logged-Steady h plain r (set_object-Steady h s c peer stat key);
  }

  after_entry-IsSteady :
      (id : Bytes) (rest : Handler e (Unit {0})) (o : Option (Unit {0}))
      → IsSteady rest
      → IsSteady (after_entry e id rest o)
  unfolding after_entry
  after_entry-IsSteady id rest none h =
      then-IsSteady _ _ (attempt-IsSteady _ (on_store-IsSteady _ _)) λ _. reads-IsSteady _
  after_entry-IsSteady id rest (some _) h =
      then-IsSteady _ _ (attempt-IsSteady _ (on_store-IsSteady _ _)) λ _. h

  flush_entries-IsSteady :
      (net : Net) (h : ℕ) (entries : List OutboxSignal) → IsSteady (flush_entries e net h entries)
  unfolding flush_entries
  flush_entries-IsSteady net h [] = reads-IsSteady _
  flush_entries-IsSteady net h (a ∷ entries) =
      then-IsSteady _ _ (attempt-IsSteady _ (send_to-IsSteady net h a.signal_content))
        λ sent. after_entry-IsSteady a.id _ sent (flush_entries-IsSteady net h entries)

  flush_ready-IsSteady :
      (net : Net) (entries : List OutboxSignal) (o : Option ℕ)
      → IsSteady (flush_ready e net entries o)
  unfolding flush_ready
  flush_ready-IsSteady net [] o = reads-IsSteady _
  flush_ready-IsSteady net (a ∷ entries) none = reads-IsSteady _
  flush_ready-IsSteady net (a ∷ entries) (some h) = record {
    at = λ c. elim (Bool-cases (bytes_eq (c.objects h).stat accepted)) [
      | inl known ↦ rw known ((flush_entries-IsSteady net h (a ∷ entries)).at c)
      | inr other ↦ rw other (Steady-refl)
    ];
  }

  flush_read-IsSteady :
      (net : Net) (key : Bytes) (r : Outcome StoreError (List OutboxSignal))
      → IsSteady (flush_read e net key r)
  unfolding flush_read
  flush_read-IsSteady net key (ok entries) = record {
    at = λ c. (flush_ready-IsSteady net entries (session_of e key c)).at c;
  }
  flush_read-IsSteady net key (err _) = reads-IsSteady _
  flush_read-IsSteady net key (panic _) = reads-IsSteady _

  pub flush_outbox-IsSteady : (net : Net) (key : Bytes) → IsSteady (flush_outbox e net key)
  unfolding flush_outbox
  flush_outbox-IsSteady net key = record {
    at = λ c. (flush_read-IsSteady net key (get_outbox e key c.private c.store)).at c;
  }

  pub request_peer_info-IsSteady : (net : Net) (h : ℕ) → IsSteady (request_peer_info e net h)
  unfolding request_peer_info
  request_peer_info-IsSteady net h =
      then-IsSteady _ _ (reads-IsSteady _)
        λ public. then-IsSteady _ _ (reads-IsSteady _) λ sig. send_to-IsSteady net h sig
