-- ===== src/Client/RateLimit/Burst.antt =====
-- client/ratelimit.go: what the limiter answers to a burst, and when it answers again.
use native.Mathlib.Nat.{div-eq_of_lt}
use Prim.Native.Nat.{min}
use end_to_end_chat.Base.{
  ℕ, zero, suc, ◌+◌, ◌-◌, ◌/◌, ◌≤◌, ◌<◌, ◌≡◌, refl, true, false, arith, ltb, leb, leb→le,
  leb_false→lt, Bool-cases, inl, inr, ap, ◌∙◌, replicate,
}
use end_to_end_chat.Base.Outcome.{ok, panic, zero_division}
use end_to_end_chat.Client.RateLimit.Bounds.{interval-pos, allow-admits}
use end_to_end_chat.Client.RateLimit.{
  MsgLimiter, new_msg_limiter, interval, refilled, take_token, allow, run,
}

-- Before an interval has passed there is no refill.
refilled_early : (l : MsgLimiter) (now : ℕ) → now < l.last + interval l → refilled l now ≡ l
unfolding refilled
refilled_early l now h = rw (div-eq_of_lt (early l.last (interval l) (interval-pos l) h)) refl
  where
    early : (last k : ℕ) → 0 < k → now < last + k → now - last < k
    early last k h h' = omega arith

took : MsgLimiter → MsgLimiter
took l = record l { tokens = l.tokens - 1 }

take_token_some : (l : MsgLimiter) → ltb 0 l.tokens ≡ true → take_token l ≡ (took l, true)
unfolding take_token took
take_token_some l h = rw h refl

take_token_none : (l : MsgLimiter) → ltb 0 l.tokens ≡ false → take_token l ≡ (l, false)
unfolding take_token
take_token_none l h = rw h refl

refilled_late :
    (l : MsgLimiter) (now : ℕ)
    → 0 < l.limit
    → l.last + interval l ≤ now
    → ltb 0 (refilled l now).tokens ≡ true
unfolding refilled
refilled_late l now h late =
    ground (arith, whole (now - l.last) (interval l) (interval-pos l) (omega arith))
  where
    whole : (t k : ℕ) → 0 < k → k ≤ t → 0 < t / k
    whole t k h h' = grind arith

module _ {E : Type 0} where
  -- At the instant of the last refill a call takes a token, if there is one.
  allow_now : (l : MsgLimiter) → 0 < l.limit → allow {E = E} l l.last ≡ ok (take_token l)
  allow_now l h =
      allow-admits l l.last h
      ∙ ap (λ (m : MsgLimiter). ok (take_token m))
          (refilled_early l l.last (omega (arith, interval-pos l)))

  run_now :
      (n : ℕ) (l : MsgLimiter)
      → 0 < l.limit
      → (l' : MsgLimiter) × (run {E = E} l (replicate n l.last) ≡ ok (l', min n l.tokens))
  unfolding run took
  run_now zero l h = (l, ap (λ (k : ℕ). ok (l, k)) (omega arith))
  run_now (suc n) l h = elim (Bool-cases (ltb 0 l.tokens)) [
    | inl there ↦
        let (l', e) = run_now n (took l) h in
        (
          l',
          rw (allow_now l h, take_token_some l there, e)
              (ap (λ (k : ℕ). ok (l', k)) (some_left n l.tokens there)),
        )
    | inr gone ↦
        let (l', e) = run_now n l h in
        (
          l',
          rw (allow_now l h, take_token_none l gone, e)
              (ap (λ (k : ℕ). ok (l', k)) (none_left n l.tokens gone)),
        )
  ]
    where
      some_left : (n t : ℕ) → ltb 0 t ≡ true → 1 + min n (t - 1) ≡ min (suc n) t
      some_left n t h = ground arith

      none_left : (n t : ℕ) → ltb 0 t ≡ false → 0 + min n t ≡ min (suc n) t
      none_left n t h = ground arith

  -- Of `n` calls at the instant at which the limiter is made, `limit` are allowed, or all if they
  -- are fewer.
  pub burst-allowed :
      (limit window now n : ℕ)
      → 0 < limit
      → (l' : MsgLimiter) × (run {E = E} (new_msg_limiter limit window now) (replicate n now)
          ≡ ok (l', min n limit))
  unfolding new_msg_limiter
  burst-allowed limit window now n h = run_now n (new_msg_limiter limit window now) h

  -- Without a token, a call is allowed exactly when an interval has passed since the last refill.
  pub allow-empty :
      (l : MsgLimiter) (now : ℕ)
      → 0 < l.limit
      → l.tokens ≡ 0
      → (l' : MsgLimiter) × (allow {E = E} l now ≡ ok (l', leb (l.last + interval l) now))
  allow-empty l now h e = elim (Bool-cases (leb (l.last + interval l) now)) [
    | inl late ↦ (
      took (refilled l now),
      rw late (
          allow-admits l now h
          ∙ ap ok (take_token_some (refilled l now) (refilled_late l now h (leb→le _ _ late)))),
    )
    | inr early ↦ (
      l,
      rw early (
          allow-admits l now h
          ∙ ap (λ (m : MsgLimiter). ok (take_token m))
              (refilled_early l now (leb_false→lt _ _ early))
          ∙ ap ok (take_token_none l (rw e refl))),
    )
  ]

-- A limit of 0 makes the first call panic.
pub allow-no_limit :
    {E : Type 0} (window now later : ℕ)
    → allow {E = E} (new_msg_limiter 0 window now) later ≡ panic zero_division
unfolding allow new_msg_limiter
allow-no_limit window now later = refl
