-- ===== src/Client/Reach.antt =====
-- client/client.go: what is sent on sessions that have a key, over connections that take everything.
use end_to_end_chat.Base.{
  ℕ, ◌≡◌, refl, sym, ap, subst, ◌∙◌, arith, Bytes, List, [], ◌∷◌, ◌++◌, map, append_assoc,
  append-nil, All, some, inl, inr, true,
}
use end_to_end_chat.Base.Outcome.{Outcome, ok}
use end_to_end_chat.Signal.Defs
use end_to_end_chat.Signal.Defs.{Signal, IsKey, IsUuid}
use end_to_end_chat.Signal.Parse.{parse}
use end_to_end_chat.Signal.RoundTrip.{parse-new}
use end_to_end_chat.Store.Defs.{Env}
use end_to_end_chat.Client.Crypto.{is_aes_key}
use end_to_end_chat.Client.State.{Client, Net, send_to, then_do}
use end_to_end_chat.Client.Sends.{send_to-cases}
use end_to_end_chat.Client.Steady.{Steady, send_to-IsSteady}
use end_to_end_chat.Client.Outbox.Delivery.{Refused-open}
use end_to_end_chat.Client.Broadcasts.{each_session, broadcast, broadcast_delete}

module _ (e : Env) where
  -- The session sends under an AES key.
  abbrev pub IsKeyed : Client e → ℕ → Type 0
  IsKeyed c h = (aes : Bytes) × ((c.objects h).sendr.key ≡ some aes) × (is_aes_key aes ≡ true)

  module _ (net : Net) (takes : (h : ℕ) (p : Bytes) → net h p ≡ ok tt) where
    pub send_to-open :
        (h : ℕ) (plain : Bytes) (c : Client e)
        → IsKeyed c h
        → (c' : Client e) × (send_to e net h plain c ≡ (c', ok tt))
          × (c'.sent ≡ c.sent ++ (h, plain) ∷ [])
          × (c'.store ≡ c.store)
          × Steady e c c'
    send_to-open h plain c (aes, held, good) =
        elim (send_to-cases e net h plain c (λ p q bad. cc (takes h p))) [
          | inl (c', sent, log, store, _) ↦ (
            c',
            sent,
            log,
            store,
            subst (λ (p : Client e × Outcome _ _). Steady e c p.0) sent
                ((send_to-IsSteady e net h plain).at c),
          )
          | inr (c', x, failed, _, _, why) ↦
              absurd (Refused-open e net h (c.objects h) plain aes (takes h) held good why)
        ]

    Steady-IsKeyed :
        {c c' : Client e} (visits : List ℕ)
        → Steady e c c'
        → All (IsKeyed c) visits
        → All (IsKeyed c') visits
    Steady-IsKeyed [] b keyed = tt
    Steady-IsKeyed (h ∷ visits) b ((aes, held, good), keyed) =
        ((aes, b.keys h ∙ held, good), Steady-IsKeyed visits b keyed)

    each_session-reaches :
        (sig : Bytes) (visits : List ℕ) (c : Client e)
        → All (IsKeyed c) visits
        → (c' : Client e) × (each_session e (λ h. send_to e net h sig) visits c ≡ (c', ok tt))
          × (c'.sent ≡ c.sent ++ map (λ h. (h, sig)) visits)
          × (c'.store ≡ c.store)
    unfolding each_session then_do
    each_session-reaches sig [] c keyed = (c, refl, sym (append-nil c.sent), refl)
    each_session-reaches sig (h ∷ visits) c keyed =
        let (c₁, sent, log, store, steady) = send_to-open h sig c keyed.0 in
        let (c', run, rest, same) =
          each_session-reaches sig visits c₁ (Steady-IsKeyed visits steady keyed.1) in
        (
          c',
          rw sent run,
          rest
              ∙ ap (λ l. l ++ map (λ h. (h, sig)) visits) log
              ∙ append_assoc c.sent ((h, sig) ∷ []) (map (λ h. (h, sig)) visits),
          same ∙ store,
        )

    -- Every connection takes every packet, every session that `Range` comes to has an AES key, and
    -- the client has a key of 32 bytes. Then the broadcast of a deletion sends one and the same
    -- packet on every one of these sessions, in their order, and nothing else, and leaves the store
    -- as it was; the packet reads as the deletion of this message by this client.
    pub broadcast_delete-reaches :
        (visits : List ℕ) (id : Bytes) (c : Client e)
        → IsKey c.public
        → IsUuid id
        → All (IsKeyed c) visits
        → (c' : Client e) × (sig : Bytes) × (broadcast_delete e net visits id c ≡ (c', ok tt))
          × (c'.sent ≡ c.sent ++ map (λ h. (h, sig)) visits)
          × (c'.store ≡ c.store)
          × (parse sig ≡ ok (record { typ = Defs.delete; from = c.public; id = id; content = [] }))
    unfolding broadcast_delete broadcast then_do
    broadcast_delete-reaches visits id c own fits keyed =
        let (sig, made, read) =
          parse-new Defs.delete c.public id [] [] (omega arith) (omega arith) own fits in
        let (c', run, log, store) = each_session-reaches sig visits c keyed in
        (c', sig, rw made run, log, store, rw append-nil at read)
