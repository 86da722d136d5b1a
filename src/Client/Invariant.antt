-- ===== src/Client/Invariant.antt =====
-- client/client.go and client/handlers.go: whatever a peer sends, the cache of decrypted messages
-- agrees with the table.
mod Tests
use end_to_end_chat.Base.{
  ℕ, ◌≡◌, refl, sym, subst, Bytes, List, [], ◌∷◌, length, Bool, true, false, if◌then◌else◌,
  bytes_eq, All, ◌==◌, Bool-cases, inl, inr,
}
use end_to_end_chat.Base.Outcome.{Outcome, ok, err, panic, map_err}
use end_to_end_chat.Base.Op.{Op, after, forgive, lift, attempt, modify}
use end_to_end_chat.Config.{nonce_size}
use end_to_end_chat.Signal.Defs
use end_to_end_chat.Signal.Defs.{Signal, SignalType, marker}
use end_to_end_chat.Store.Defs.{Draws, Env, Store, StoreError}
use end_to_end_chat.Store.Peers.{KnownPeer, accepted, get_peer}
use end_to_end_chat.Client.RateLimit.{MsgLimiter}
use end_to_end_chat.Message.Repository.{get}
use end_to_end_chat.Message.Repository.Coherent.{Coherent, Coherent-same}
use end_to_end_chat.Message.Repository.Invariant.{
  put-Coherent, get-Coherent, update-Coherent, delete-Coherent,
}
use end_to_end_chat.Client.State.{Client, Handler, Net, Warning, on_store, then_do, set_object}
use end_to_end_chat.Client.Frames.{
  FramesClient, Frames-on_store, Frames-lift, Frames-modify, Alike-refl, Frames-reads,
}
use end_to_end_chat.Client.Frames.Handlers.{
  handle_info_request-Frames, handle_info_response-Frames, handle_info_changed-Frames,
  handle_peer_accepted-Frames, handle_file_chunk-Frames, add_peer-Frames,
}
use end_to_end_chat.Client.Files.{handle_file_meta}
use end_to_end_chat.Client.Signals.{
  verify_author, handle_message, verify_and_delete, verify_and_update, handle_delete, handle_update,
  handle_type, handle_signal,
}
use end_to_end_chat.Client.Dispatch.{
  limited, check_rate, handle_from_stranger, handle_envelope, handle_decrypted, decrypted_by,
  receive, is_open, is_guarded,
}
use end_to_end_chat.Client.Loop.{turns, seen, end_loop, read_loop}

module _ (e : Env) where
  abbrev pub IsSound : Client e → Type 0
  IsSound c = Coherent e c.private c.store

  pub record Keeps {A : Type 0} (m : Handler e A) : Type 0 where
    pub at : (c : Client e) → IsSound c → IsSound (m c).0

  pub Keeps-Frames : {A : Type 0} {m : Handler e A} → FramesClient e m → Keeps m
  Keeps-Frames {A} {m} f = record {
    at = λ c sound.
        let same = f.at c in
        subst (λ p. Coherent e p (m c).0.store) (sym same.private)
          (Coherent-same e c.private sound same.stored.answers same.stored.cached);
  }

  after-IsSound :
      {A B : Type 0} (p : Client e × Outcome Warning A) (f : A → Handler e B)
      → IsSound p.0
      → ((a : A) → Keeps (f a))
      → IsSound (after p f).0
  after-IsSound (c, ok a) f sound k = (k a).at c sound
  after-IsSound (c, err w) f sound k = sound
  after-IsSound (c, panic q) f sound k = sound

  pub Keeps-then :
      {A B : Type 0} (m : Handler e A) (f : A → Handler e B)
      → Keeps m
      → ((a : A) → Keeps (f a))
      → Keeps (then_do e m f)
  unfolding then_do
  Keeps-then m f h k = record { at = λ c sound. after-IsSound (m c) f (h.at c sound) k }

  Keeps-lift : {A : Type 0} (r : Outcome Warning A) → Keeps (lift r)
  Keeps-lift r = record { at = λ c sound. sound }

  Keeps-reads : {A : Type 0} (f : Client e → Outcome Warning A) → Keeps (λ c. (c, f c))
  Keeps-reads f = record { at = λ c sound. sound }

  forgive-IsSound :
      {A : Type 0} (p : Client e × Outcome Warning A) → IsSound p.0 → IsSound (forgive p).0
  forgive-IsSound (c, ok a) h = h
  forgive-IsSound (c, err w) h = h
  forgive-IsSound (c, panic q) h = h

  pub Keeps-attempt : {A : Type 0} (m : Handler e A) → Keeps m → Keeps (attempt m)
  Keeps-attempt m h = record { at = λ c sound. forgive-IsSound (m c) (h.at c sound) }

  Keeps-if :
      {A : Type 0} (b : Bool) (m n : Handler e A) → Keeps m → Keeps n → Keeps (if b then m else n)
  Keeps-if true m n h k = h
  Keeps-if false m n h k = k

  pub Keeps-on_store :
      {E A : Type 0} (wrap : E → Warning) (m : Client e → Op (Store e) E A)
      → ((c : Client e) → IsSound c → Coherent e c.private (m c c.store).0)
      → Keeps (on_store e wrap m)
  unfolding on_store
  Keeps-on_store wrap m h = record { at = h }

  verify_author-Keeps : (now : ℕ) (id key : Bytes) → Keeps (verify_author e now id key)
  unfolding verify_author
  verify_author-Keeps now id key =
      Keeps-then _ _ (Keeps-on_store _ _ λ c sound. get-Coherent e c.private now id c.store sound)
        λ msg. Keeps-then _ _ (Keeps-lift _) λ _. Keeps-lift _

  handle_message-Keeps :
      (d : Draws) (sig : Signal) (key : Bytes)
      → length d.nonce ≡ nonce_size
      → Keeps (handle_message e d sig key)
  unfolding handle_message
  handle_message-Keeps d sig key h = Keeps-then _ _ (Keeps-lift _) λ _.
      Keeps-then _ _ (Keeps-lift _) λ msg. Keeps-then _ _ (Keeps-reads _) λ from_name.
        Keeps-then _ _
          (Keeps-attempt _ (
            Keeps-on_store _ _ λ c sound.
              put-Coherent e c.private d.nonce d.now d.fresh from_name _ c.store h sound))
          λ _. Keeps-lift _

  handle_delete-Keeps : (d : Draws) (sig : Signal) (key : Bytes) → Keeps (handle_delete e d sig key)
  unfolding handle_delete verify_and_delete
  handle_delete-Keeps d sig key = Keeps-then _ _ (Keeps-lift _) λ _.
      Keeps-then _ _ (verify_author-Keeps d.now sig.id key)
        λ _. Keeps-on_store _ _ λ c sound. delete-Coherent e c.private d.now sig.id c.store sound

  handle_update-Keeps :
      (d : Draws) (sig : Signal) (key : Bytes)
      → length d.nonce ≡ nonce_size
      → Keeps (handle_update e d sig key)
  unfolding handle_update verify_and_update
  handle_update-Keeps d sig key h = Keeps-then _ _ (Keeps-lift _) λ _.
      Keeps-then _ _ (verify_author-Keeps d.now sig.id key) λ msg.
        Keeps-then _ _ (Keeps-reads _) λ own_name.
          Keeps-on_store _ _
            λ c sound. update-Coherent e c.private d.nonce d.now sig.id own_name _ c.store h sound

  handle_file_meta-Keeps : (sig : Signal) (key : Bytes) → Keeps (handle_file_meta e sig key)
  unfolding handle_file_meta
  handle_file_meta-Keeps sig key =
      Keeps-then _ _ (Keeps-lift _)
        λ _. Keeps-then _ _ (Keeps-lift _) λ meta. record { at = λ c sound. sound }

  handle_signal-Keeps :
      (net : Net) (d : Draws) (sig : Signal) (key : Bytes)
      → length d.nonce ≡ nonce_size
      → Keeps (handle_signal e net d sig key)
  unfolding handle_signal handle_type
  handle_signal-Keeps net d sig key h = Keeps-if _ _ _ (handle_message-Keeps d sig key h) (
      Keeps-if _ _ _ (handle_file_meta-Keeps sig key) (
        Keeps-if _ _ _ (handle_delete-Keeps d sig key) (
          Keeps-if _ _ _ (handle_update-Keeps d sig key h) (
            Keeps-if _ _ _ (Keeps-Frames (handle_info_request-Frames e net key)) (
              Keeps-if _ _ _ (Keeps-Frames (handle_info_response-Frames e d key sig.content)) (
                Keeps-if _ _ _ (Keeps-Frames (handle_info_changed-Frames e net key)) (
                  Keeps-if _ _ _ (Keeps-Frames (handle_peer_accepted-Frames e key))
                    (Keeps-if _ _ _ (Keeps-lift _) (Keeps-lift _)))))))))

  limited-Keeps : (h : ℕ) (r : MsgLimiter × Bool) → Keeps (limited e h r)
  unfolding limited set_object
  limited-Keeps h (limiter, true) = record { at = λ c sound. sound }
  limited-Keeps h (limiter, false) =
      Keeps-then _ _ (record { at = λ c sound. sound }) λ _. Keeps-lift _

  check_rate-Keeps : (now h : ℕ) → Keeps (check_rate e now h)
  unfolding check_rate
  check_rate-Keeps now h = record {
    at = λ c sound. (Keeps-then _ _ (Keeps-lift _) λ r. limited-Keeps h r).at c sound;
  }

  handle_envelope-Keeps :
      (net : Net) (d : Draws) (sig : Signal) (h : ℕ) (key : Bytes)
      → length d.nonce ≡ nonce_size
      → Keeps (handle_envelope e net d sig h key)
  unfolding handle_envelope handle_from_stranger
  handle_envelope-Keeps net d sig h key fits = record {
    at = λ c sound. elim (Bool-cases (bytes_eq (c.objects h).stat accepted)) [
      | inl known ↦ rw known (
          (Keeps-then _ _ (check_rate-Keeps d.now h) λ _. handle_signal-Keeps net d sig key fits).at
            c sound)
      | inr other ↦ rw other (
          (Keeps-if (is_open sig.typ) _ _ (handle_signal-Keeps net d sig key fits)
              (Keeps-if (is_guarded sig.typ) _ _ (Keeps-lift _) (Keeps-lift _))).at
            c sound)
    ];
  }

  pub handle_decrypted-Keeps :
      (net : Net) (d : Draws) (plain : Bytes) (h : ℕ) (key : Bytes)
      → length d.nonce ≡ nonce_size
      → Keeps (handle_decrypted e net d plain h key)
  unfolding handle_decrypted
  handle_decrypted-Keeps net d [] h key fits = Keeps-lift _
  handle_decrypted-Keeps net d (first ∷ rest) h key fits =
      Keeps-if (first == marker) _ _
        (Keeps-then _ _ (Keeps-lift _) λ sig. handle_envelope-Keeps net d sig h key fits)
        (Keeps-Frames (handle_file_chunk-Frames e d rest))

  receive-Keeps :
      (net : Net) (d : Draws) (packet : Bytes) (h : ℕ) (key : Bytes)
      → length d.nonce ≡ nonce_size
      → Keeps (receive e net d packet h key)
  unfolding receive decrypted_by set_object
  receive-Keeps net d packet h key fits =
      Keeps-then _ _ (record { at = λ c sound. sound })
        λ plain. handle_decrypted-Keeps net d plain h key fits

  turns-Keeps :
      (net : Net) (inputs : List (Draws × Bytes)) (h : ℕ) (key : Bytes)
      → All (λ (i : Draws × Bytes). length i.0.nonce ≡ nonce_size) inputs
      → Keeps (turns e net inputs h key)
  unfolding turns
  turns-Keeps net [] h key fits = Keeps-lift _
  turns-Keeps net ((d, input) ∷ rest) h key fits =
      Keeps-then _ _ (Keeps-attempt _ (receive-Keeps net d input h key fits.0))
        λ _. turns-Keeps net rest h key fits.1

  pub seen-Keeps : (now : ℕ) (r : Outcome StoreError KnownPeer) → Keeps (seen e now r)
  unfolding seen
  seen-Keeps now (ok peer) =
      Keeps-attempt _ (Keeps-Frames (Frames-on_store e _ _ λ c. add_peer-Frames e _))
  seen-Keeps now (err _) = Keeps-lift _
  seen-Keeps now (panic _) = Keeps-lift _

  end_loop-Keeps : (now h : ℕ) (key : Bytes) → Keeps (end_loop e now h key)
  unfolding end_loop set_object
  end_loop-Keeps now h key =
      Keeps-then _ _ (record { at = λ c sound. sound })
        λ _.
          Keeps-then _ _ (record { at = λ c. (seen-Keeps now (get_peer e key c.store)).at c })
            λ _. record { at = λ c sound. sound }

  -- A session runs from its first packet to the end of its connection. The peer sends what it likes,
  -- and the connection takes what it likes. If every nonce that is drawn for the store has 12 bytes,
  -- and the cache of messages agrees with the table when the session starts, then it agrees with the
  -- table when the session has ended.
  pub read_loop-IsSound :
      (net : Net) (inputs : List (Draws × Bytes)) (now h : ℕ) (key : Bytes) (c : Client e)
      → All (λ (i : Draws × Bytes). length i.0.nonce ≡ nonce_size) inputs
      → Coherent e c.private c.store
      → Coherent e
          (read_loop e net inputs now h key c).0.private
          (read_loop e net inputs now h key c).0.store
  unfolding read_loop
  read_loop-IsSound net inputs now h key c fits sound =
      (Keeps-then _ _ (turns-Keeps net inputs h key fits) λ _. end_loop-Keeps now h key).at c sound
