-- ===== src/Client/NoLimit.antt =====
-- client/handlers.go with client/ratelimit.go: a client whose message limit is 0.
mod Tests
use end_to_end_chat.Base.{
  ℕ, ◌≡◌, ◌<◌, ◌^◌, refl, ap, ◌∙◌, sym, Bytes, List, [], ◌∷◌, length, append-nil, Option, bytes_eq,
  Bool, true, if◌then◌else◌,
}
use end_to_end_chat.Base.Outcome.{Outcome, Panic, ok, err, panic, zero_division, ok-injective}
use end_to_end_chat.Base.Op.{Op, after, forgive}
use end_to_end_chat.Wire.BigEndian.{put_be}
use end_to_end_chat.Signal.Defs.{Signal, IsKey, IsUuid}
use end_to_end_chat.Signal.New.{new}
use end_to_end_chat.Signal.Parse.{parse}
use end_to_end_chat.Signal.RoundTrip.{envelope, new-layout, parse-new}
use end_to_end_chat.Store.Defs.{Draws, Env}
use end_to_end_chat.Store.Peers.{accepted}
use end_to_end_chat.Client.RateLimit.{allow, new_msg_limiter}
use end_to_end_chat.Client.RateLimit.Burst.{allow-no_limit}
use end_to_end_chat.Client.Session.Defs.{Session}
use end_to_end_chat.Client.Session.Channel.{Linked, packet, after_receiving, decrypt-Linked}
use end_to_end_chat.Client.State.{Client, Net, Warning, then_do, set_object}
use end_to_end_chat.Client.Dispatch.{handle_decrypted, handle_envelope, check_rate, receive}
use end_to_end_chat.Client.EndToEnd.{receive-plain, handle_decrypted-parsed, same_object}
use end_to_end_chat.Client.Loop.{turns}

-- Neither a caught error nor what comes behind undoes a panic.
after-forgive_panic :
    {S E A B : Type 0} (p : S × Outcome E A) (f : Option A → Op S E B) {q : Panic}
    → p.1 ≡ panic q
    → (after (forgive p) f).1 ≡ panic q
after-forgive_panic (s, ok a) f bad = cc bad
after-forgive_panic (s, err x) f bad = cc bad
after-forgive_panic (s, panic q') f bad = cc bad

module _ (e : Env) where
  turns-panic :
      (net : Net) (d : Draws) (input key : Bytes) (rest : List (Draws × Bytes)) (h : ℕ)
      (c : Client e)
      → (receive e net d input h key c).1 ≡ panic zero_division
      → (turns e net ((d, input) ∷ rest) h key c).1 ≡ panic zero_division
  unfolding turns then_do
  turns-panic net d input key rest h c bad =
      after-forgive_panic (receive e net d input h key c) (λ _. turns e net rest h key) bad

  handle_envelope-no_limit :
      (net : Net) (d : Draws) (sig : Signal) (key : Bytes) (h w t : ℕ) (c : Client e)
      → bytes_eq (c.objects h).stat accepted ≡ true
      → (c.objects h).msg_limiter ≡ new_msg_limiter 0 w t
      → (handle_envelope e net d sig h key c).1 ≡ panic zero_division
  unfolding handle_envelope check_rate then_do
  handle_envelope-no_limit net d sig key h w t c stat none_left =
      rw (stat, ap (λ l. allow {E = Warning} l d.now) none_left ∙ allow-no_limit w t d.now) refl

  -- A session is accepted, the limit under which its limiter was made is 0, and the peer sends, under
  -- the key and the counter that the session expects, any signal: a type below 65536 bytes, a content
  -- below 4 GiB, a key of 32 bytes and an id of 16. The loop that reads from the connection panics at
  -- this packet, whatever comes behind it.
  pub turns-no_limit :
      (net : Net) (d : Draws) (h n w t : ℕ) (typ from id content key : Bytes)
      (rest : List (Draws × Bytes)) (peer : Session) (c : Client e)
      → length typ < 2 ^ 16
      → length content < 2 ^ 32
      → IsKey from
      → IsUuid id
      → (linked : Linked peer (c.objects h) n) → bytes_eq (c.objects h).stat accepted ≡ true
      → (c.objects h).msg_limiter ≡ new_msg_limiter 0 w t
      → (wire : Bytes) × (new typ from id content ≡ ok wire)
        × ((turns e net ((d, packet e.crypto linked.key n wire) ∷ rest) h key c).1
            ≡ panic zero_division)
  unfolding set_object after_receiving put_be
  turns-no_limit net d h n w t typ from id content key rest peer c short fits k u linked stat
        none_left =
      let (wire, also, parsed) = parse-new typ from id content [] short fits k u in
      let s = after_receiving (c.objects h) in
      let c₁ = set_object e h s c in
      (
        envelope typ from id content,
        new-layout typ from id content short fits k u,
        turns-panic net d _ key rest h c (
            ap (λ p. p.1)
              (receive-plain e net d _ (envelope typ from id content) key h s c (
                  decrypt-Linked e.crypto peer (c.objects h) n (envelope typ from id content)
                    linked)
                ∙ handle_decrypted-parsed e net d _ key h
                    (record { typ = typ; from = from; id = id; content = content }) c₁
                    (ap parse (
                        ok-injective (sym (new-layout typ from id content short fits k u) ∙ also)
                        ∙ sym (append-nil wire))
                      ∙ parsed))
            ∙ handle_envelope-no_limit net d _ key h w t c₁
                (ap (λ (b : Bool). bytes_eq (if b then s else c.objects h).stat accepted)
                    (same_object e h)
                  ∙ stat)
                (ap (λ (b : Bool). (if b then s else c.objects h).msg_limiter) (same_object e h)
                  ∙ none_left)),
      )
