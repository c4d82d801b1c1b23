-- ===== src/Domain/RateLimit/Cooldown.antt =====
-- What the waiting time of app/domain/rate_limit.py means.
use telegram_subscription_ma.Base.{ℕ, ◌+◌, ◌*◌, ◌≤◌, ◌↔◌, arith, some}
use telegram_subscription_ma.Domain.RateLimit.{
  microseconds_per_minute, question_cooldown, minutes_until_allowed,
}

-- `minutes_until_allowed` is the least number of whole minutes after which the cooldown, counted
-- from the last action, is over; it is 0 exactly if it is over now.
pub minutes_until_allowed_least :
    (now last_at cooldown m : ℕ)
    → (minutes_until_allowed now (some last_at) cooldown ≤ m)
      ↔ (last_at + cooldown ≤ now + m * microseconds_per_minute)
unfolding minutes_until_allowed
minutes_until_allowed_least now last_at cooldown m = (λ e. omega arith, λ e. omega arith)

-- Nobody is told to wait for more than an hour for the next question, unless the clock has gone
-- back since the last one.
pub question_wait_bound :
    (now last_at : ℕ)
    → last_at ≤ now
    → minutes_until_allowed now (some last_at) question_cooldown ≤ 60
unfolding minutes_until_allowed
question_wait_bound now last_at h = omega arith
