-- ===== src/Client/RateLimit/Bounds.antt =====
-- client/ratelimit.go: how much the limiter lets through.
use end_to_end_chat.Base.{
  ℕ, ◌+◌, ◌-◌, ◌*◌, ◌/◌, ◌≤◌, ◌<◌, ◌≡◌, refl, ap, ◌∙◌, Bool, Bool-cases, inl, inr, List, [], ◌∷◌,
  arith, ltb, if◌then◌else◌,
}
use end_to_end_chat.Base.Outcome.{ok}
use end_to_end_chat.Client.RateLimit.{
  MsgLimiter, new_msg_limiter, interval, refilled, take_token, allow, count, run,
}

-- The bucket never holds more than the limit, and time has not run ahead of the clock.
pub record Inv (now : ℕ) (l : MsgLimiter) : Type 0 where
  pub some_limit : 0 < l.limit
  pub bounded : l.tokens ≤ l.limit
  pub past : l.last ≤ now

pub interval-pos : (l : MsgLimiter) → 0 < interval l
unfolding interval
interval-pos l = ground arith

-- `allowed` calls are paid for, with tokens or with time that has passed, at `k` a call.
pub record Pays (k : ℕ) (l : MsgLimiter) (l' : MsgLimiter) (allowed : ℕ) : Type 0 where
  pub same_limit : l'.limit ≡ l.limit
  pub same_window : l'.window ≡ l.window
  pub paid : (allowed + l'.tokens) * k + l.last ≤ l.tokens * k + l'.last

pub whole_intervals : (t k : ℕ) → 0 < k → t / k * k ≤ t
whole_intervals t k h = grind arith

refilled-Inv :
    (now later : ℕ) (l : MsgLimiter) → now ≤ later → Inv now l → Inv later (refilled l later)
unfolding refilled
refilled-Inv now later l le h =
    ground (arith, whole_intervals (later - l.last) (interval l) (interval-pos l))

capped : (cap n : ℕ) → (if ltb cap n then cap else n) ≤ n
capped cap n = ground arith

mul_mono : (a b k : ℕ) → a ≤ b → a * k ≤ b * k
mul_mono a b k h = grind arith

refill_paid : (t t' r k last : ℕ) → t' ≤ t + r → (0 + t') * k + last ≤ t * k + (last + r * k)
refill_paid t t' r k last h = omega (arith, mul_mono t' (t + r) k h)

refilled-Pays : (now : ℕ) (l : MsgLimiter) → Pays (interval l) l (refilled l now) 0
unfolding refilled
refilled-Pays now l =
    let r = (now - l.last) / interval l in
    elim (Bool-cases (ltb 0 r)) [
      | inl some_time ↦ rw some_time (record {
        same_limit = refl;
        same_window = refl;
        paid = refill_paid l.tokens _ r (interval l) l.last (capped l.limit (l.tokens + r));
      })
      | inr no_time ↦
          rw no_time (record { same_limit = refl; same_window = refl; paid = omega arith })
    ]

take_token-Inv : (now : ℕ) (l : MsgLimiter) → Inv now l → Inv now (take_token l).0
unfolding take_token
take_token-Inv now l h = ground arith

take_token-Pays : (k : ℕ) (l : MsgLimiter) → Pays k l (take_token l).0 (count (take_token l).1)
unfolding take_token
take_token-Pays k l = ground arith

-- Calls in a row are paid for together.
Pays-then :
    (k a b : ℕ) {c : ℕ} (l l' l'' : MsgLimiter)
    → a + b ≡ c
    → Pays k l l' a
    → Pays k l' l'' b
    → Pays k l l'' c
Pays-then k a b l l' l'' e h h' = record {
  same_limit = h'.same_limit ∙ h.same_limit;
  same_window = h'.same_window ∙ h.same_window;
  paid = omega (arith, h.paid, h'.paid, ap (λ (n : ℕ). n * k) e);
}

interval-same :
    (l l' : MsgLimiter) → l'.limit ≡ l.limit → l'.window ≡ l.window → interval l' ≡ interval l
unfolding interval
interval-same l l' e e' = rw (e, e')

-- What a call does where there is a limit.
pub allow-admits :
    {E : Type 0} (l : MsgLimiter) (now : ℕ)
    → 0 < l.limit
    → allow {E = E} l now ≡ ok (take_token (refilled l now))
unfolding allow
allow-admits l now h = ground arith

-- The times of calls: in order, the first not before `from` and the last not after `to`.
abbrev pub Within : ℕ → List ℕ → ℕ → Type 0
Within from [] to = from ≤ to
Within from (now ∷ times) to = (from ≤ now) × Within now times to

-- One call, and what it leaves.
admitted : MsgLimiter → ℕ → MsgLimiter
admitted l now = (take_token (refilled l now)).0

admitted-Pays :
    (l : MsgLimiter) (now : ℕ)
    → Pays (interval l) l (admitted l now) (count (take_token (refilled l now)).1)
unfolding admitted
admitted-Pays l now =
    Pays-then _ 0 (count (take_token (refilled l now)).1) _ _ _ (omega arith) (refilled-Pays now l)
      (take_token-Pays (interval l) (refilled l now))

-- How a run ends: the calls that were allowed are paid for, and the invariant holds.
record Served (E : Type 0) (k : ℕ) (l : MsgLimiter) (times : List ℕ) (to : ℕ) : Type 0 where
  end : MsgLimiter
  allowed : ℕ
  ran : run {E = E} l times ≡ ok (end, allowed)
  pays : Pays k l end allowed
  inv : Inv to end

run-then :
    {E : Type 0} (l l1 : MsgLimiter) (answer : Bool) (now to : ℕ) (times : List ℕ)
    → allow {E = E} l now ≡ ok (l1, answer)
    → Pays (interval l) l l1 (count answer)
    → Served E (interval l1) l1 times to
    → Served E (interval l) l (now ∷ times) to
unfolding run
run-then l l1 answer now to times e p s = record {
  end = s.end;
  allowed = count answer + s.allowed;
  ran = rw (e, s.ran) refl;
  pays =
      Pays-then (interval l) (count answer) s.allowed l l1 s.end refl p
        (rw (interval-same l l1 p.same_limit p.same_window) at s.pays);
  inv = s.inv;
}

run-Served :
    {E : Type 0} (l : MsgLimiter) (times : List ℕ) (from to : ℕ)
    → Within from times to
    → Inv from l
    → Served E (interval l) l times to
run-Served l [] from to w h = record {
  end = l;
  allowed = 0;
  ran = unfold run in refl;
  pays = omega arith;
  inv = omega arith;
}
run-Served {E} l (now ∷ times) from to w h =
    run-then l (admitted l now) (take_token (refilled l now)).1 now to times
      (unfold admitted in allow-admits l now h.some_limit) (admitted-Pays l now)
      (run-Served (admitted l now) times now to w.1
        (unfold admitted in take_token-Inv now (refilled l now) (refilled-Inv from now l w.0 h)))

-- A new limiter with a limit, called at any times in order from `from` to `to`, does not panic, and
-- lets through at most the limit and one call for each interval that has passed since `from`.
pub allowed-le :
    {E : Type 0} (limit window from to : ℕ) (times : List ℕ)
    → 0 < limit
    → Within from times to
    → (l' : MsgLimiter) × (allowed : ℕ) × (run {E = E} (new_msg_limiter limit window from) times
        ≡ ok (l', allowed))
      × (allowed * interval (new_msg_limiter limit window from)
          ≤ limit * interval (new_msg_limiter limit window from) + (to - from))
unfolding new_msg_limiter
allowed-le limit window from to times some w =
    let l = new_msg_limiter limit window from in
    let s = run-Served l times from to w (omega arith) in
    (s.end, s.allowed, s.ran, omega (arith, s.pays.paid, s.inv.past))
