-- ===== src/Client/RateLimit.antt =====
-- client/ratelimit.go: the token bucket of a session. Times and durations are nanoseconds; the
-- limit and the window are not negative, and a clock that goes back counts as no time passed.
pub mod Bounds
pub mod Burst
mod Tests
use end_to_end_chat.Base.{
  ℕ, ◌+◌, ◌-◌, ◌*◌, ◌/◌, Bool, true, false, List, [], ◌∷◌, ltb, ◌==◌, if◌then◌else◌,
}
use end_to_end_chat.Base.Outcome.{Outcome, ok, panic, zero_division, ◌>>=◌}

pub record MsgLimiter : Type 0 where
  pub limit : ℕ
  pub window : ℕ
  pub tokens : ℕ
  pub last : ℕ

unfoldable pub new_msg_limiter : ℕ → ℕ → ℕ → MsgLimiter
new_msg_limiter limit window now = record {
  limit = limit;
  window = window;
  tokens = limit;
  last = now;
}

-- `interval := l.window / time.Duration(l.limit)`, at least a nanosecond.
unfoldable pub interval : MsgLimiter → ℕ
interval l = let i = l.window / l.limit in if i == 0 then 1 else i

-- The tokens of the whole intervals since `last`.
unfoldable pub refilled : MsgLimiter → ℕ → MsgLimiter
refilled l now =
    let refill = (now - l.last) / interval l in
    let tokens = l.tokens + refill in
    if ltb 0 refill
    then record l {
      tokens = if ltb l.limit tokens then l.limit else tokens;
      last = l.last + refill * interval l;
    }
    else l

unfoldable pub take_token : MsgLimiter → MsgLimiter × Bool
take_token l = if ltb 0 l.tokens then (record l { tokens = l.tokens - 1 }, true) else (l, false)

-- `Allow` at the time `now`. The division by a limit of 0 panics.
unfoldable pub allow : {E : Type 0} → MsgLimiter → ℕ → Outcome E (MsgLimiter × Bool)
unfolding refilled take_token
allow l now = if l.limit == 0 then panic zero_division else ok (take_token (refilled l now))

abbrev count : Bool → ℕ
count true = 1
count false = 0

-- Calls at the times of the list, and how many of them were allowed.
unfoldable pub run : {E : Type 0} → MsgLimiter → List ℕ → Outcome E (MsgLimiter × ℕ)
run l [] = ok (l, 0)
run l (now ∷ times) = do
  (l', answer) ← allow l now
  (last, allowed) ← run l' times
  ok (last, count answer + allowed)
