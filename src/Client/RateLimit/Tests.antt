-- ===== src/Client/RateLimit/Tests.antt =====
-- client/ratelimit.go on concrete calls: 3 messages in a window of 30 nanoseconds.

use end_to_end_chat.Base.{ℕ, ◌+◌, ◌-◌, ◌*◌, ◌≤◌, ◌≡◌, refl, ◌∷◌, [], arith}
use end_to_end_chat.Base.Outcome.{ok}
use end_to_end_chat.Client.Session.Defs.{SessionError}
use end_to_end_chat.Client.RateLimit.{
  MsgLimiter, new_msg_limiter, interval, allow, run, take_token, refilled,
}
use end_to_end_chat.Client.RateLimit.Bounds.{allowed-le}

allowed-le_example :
    (l' : MsgLimiter) × (allowed : ℕ) × (run {E = SessionError}
        (new_msg_limiter 3 30 100)
        (100 ∷ 101 ∷ 102 ∷ 103 ∷ 115 ∷ [])
      ≡ ok (l', allowed))
    × (allowed * interval (new_msg_limiter 3 30 100)
        ≤ 3 * interval (new_msg_limiter 3 30 100) + (120 - 100))
allowed-le_example =
    allowed-le {E = SessionError} 3 30 100 120 (100 ∷ 101 ∷ 102 ∷ 103 ∷ 115 ∷ []) (omega arith)
      (omega arith, (omega arith, (omega arith, (omega arith, (omega arith, omega arith)))))

five_calls :
    run {E = SessionError} (new_msg_limiter 3 30 100) (100 ∷ 101 ∷ 102 ∷ 103 ∷ 115 ∷ [])
    ≡ ok (record { limit = 3; window = 30; tokens = 0; last = 110 }, 4)
unfolding run allow take_token refilled interval new_msg_limiter
five_calls = refl
