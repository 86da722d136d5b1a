-- ===== src/Client/Gate.antt =====
-- client/client.go: what a peer that is not accepted can do.
use end_to_end_chat.Base.{
  ℕ, ◌≡◌, refl, sym, subst, Bytes, [], ◌∷◌, Bool, true, false, ◌==◌, bytes_eq, bytes_eq→eq,
  Bool-cases, inl, inr,
}
use end_to_end_chat.Base.Outcome.{Outcome, ok, err, panic, map_err}
use end_to_end_chat.Base.Op.{lift}
use end_to_end_chat.Signal.Defs
use end_to_end_chat.Signal.Defs.{Signal, SignalType, marker}
use end_to_end_chat.Signal.Parse.{parse}
use end_to_end_chat.Store.Defs.{Env, Draws, Store}
use end_to_end_chat.Store.Peers.{accepted}
use end_to_end_chat.Client.State.{Client, Net, Warning, then_do, bad_signal, unexpected_type}
use end_to_end_chat.Client.Signals.{handle_type, handle_signal}
use end_to_end_chat.Client.Dispatch.{
  is_open, is_guarded, handle_from_stranger, handle_envelope, handle_decrypted,
}
use end_to_end_chat.Client.Frames.{Alike, Same, Same-refl, FramesClient, Frames-lift, Frames-if}
use end_to_end_chat.Client.Frames.Handlers.{
  handle_info_request-Frames, handle_info_response-Frames, handle_info_changed-Frames,
  handle_peer_accepted-Frames, handle_file_chunk-Frames,
}

module _ (e : Env) (net : Net) (d : Draws) where
  -- The signals that are open to all leave the messages as they are.
  open-Frames :
      (sig : Signal) (key : Bytes) (typ : SignalType)
      → is_open typ ≡ true
      → FramesClient e (handle_type e net d sig key typ)
  unfolding handle_type bytes_eq
  open-Frames sig key typ h = elim (Bool-cases (bytes_eq typ Defs.info_request)) [
    | inl q ↦ at Defs.info_request q (handle_info_request-Frames e net key)
    | inr n₁ ↦ elim (Bool-cases (bytes_eq typ Defs.info_response)) [
      | inl q ↦ at Defs.info_response q (handle_info_response-Frames e d key sig.content)
      | inr n₂ ↦ elim (Bool-cases (bytes_eq typ Defs.info_changed)) [
        | inl q ↦ at Defs.info_changed q (handle_info_changed-Frames e net key)
        | inr n₃ ↦ elim (Bool-cases (bytes_eq typ Defs.peer_accepted)) [
          | inl q ↦ at Defs.peer_accepted q (handle_peer_accepted-Frames e key)
          | inr n₄ ↦ cc (rw (n₁, n₂, n₃, n₄) at h)
        ]
      ]
    ]
  ]
    where
      at :
          (t : SignalType)
          → bytes_eq typ t ≡ true
          → FramesClient e (handle_type e net d sig key t)
          → FramesClient e (handle_type e net d sig key typ)
      at t q k =
          subst (λ (u : SignalType). FramesClient e (handle_type e net d sig key u))
            (sym (bytes_eq→eq typ t q)) k

  -- A signal that is not open ends with a warning, or is passed over.
  stranger-Frames :
      (sig : Signal) (key : Bytes) → FramesClient e (handle_from_stranger e net d sig key)
  unfolding handle_from_stranger handle_signal
  stranger-Frames sig key = record { at = λ c. at c (is_open sig.typ) refl }
    where
      view : Client e → Store e × Bytes
      view c = (c.store, c.private)

      at :
          (c : Client e) (b : Bool)
          → is_open sig.typ ≡ b
          → Alike e (c.store, c.private) (view (handle_from_stranger e net d sig key c).0)
      at c true q = rw (q) ((open-Frames sig key sig.typ q).at c)
      at c false q = rw (q) (
          (Frames-if e view (is_guarded sig.typ) (lift (err unexpected_type)) (lift (ok tt))
              (Frames-lift e view (err unexpected_type)) (Frames-lift e view (ok tt))).at
            c)

  -- A plaintext that arrives on a session whose status is not `accepted`, whatever it is, leaves
  -- every stored message as it was, in the table and in the cache.
  pub handle_decrypted-Same :
      (h : ℕ) (key plain : Bytes) (c : Client e)
      → bytes_eq (c.objects h).stat accepted ≡ false
      → Same e c.store (handle_decrypted e net d plain h key c).0.store
  unfolding handle_decrypted handle_envelope then_do
  handle_decrypted-Same h key [] c p = Same-refl e
  handle_decrypted-Same h key (first ∷ rest) c p = at (first == marker) refl
    where
      envelope :
          (r : Outcome Warning Signal)
          → Same e c.store (then_do e (lift r) (λ sig. handle_envelope e net d sig h key) c).0.store
      envelope (ok sig) = rw (p) (((stranger-Frames sig key).at c).stored)
      envelope (err w) = Same-refl e
      envelope (panic _) = Same-refl e

      at :
          (b : Bool)
          → (first == marker) ≡ b
          → Same e c.store (handle_decrypted e net d (first ∷ rest) h key c).0.store
      at true q = rw (q) (envelope (map_err bad_signal (parse (first ∷ rest))))
      at false q = rw (q) (((handle_file_chunk-Frames e d rest).at c).stored)
