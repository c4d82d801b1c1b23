-- ===== src/Domain/RateLimit.antt =====
-- app/domain/rate_limit.py.
pub mod Cooldown
use telegram_subscription_ma.Base.{
  ℕ, ◌+◌, ◌-◌, ◌%◌, Bool, ◌&&◌, ◌||◌, leb, ◌==◌, if◌then◌else◌, Option, none, some,
}
use telegram_subscription_ma.Base.Text.{Text, codes}
use telegram_subscription_ma.Domain.Time.{ceil_div}

abbrev pub microseconds_per_minute : ℕ
microseconds_per_minute = 60_000_000

-- `timedelta(hours=1)`
abbrev pub question_cooldown : ℕ
question_cooldown = 3_600_000_000

-- `cooldown - (utcnow() - last_at)` is `cooldown + last_at - now`; where that is negative it rounds
-- up to 0 or less, and `max(0, …)` is 0, as the difference of naturals gives.
unfoldable pub minutes_until_allowed : ℕ → Option ℕ → ℕ → ℕ
minutes_until_allowed now none cooldown = 0
minutes_until_allowed now (some last_at) cooldown =
    ceil_div (cooldown + last_at - now) microseconds_per_minute

unfoldable pub pluralize_minutes_ru : ℕ → Text
pluralize_minutes_ru n =
    let last_digit = n % 10 in
    if leb 11 (n % 100) && leb (n % 100) 14
    then codes "минут"
    else if last_digit == 1
    then codes "минуту"
    else if (last_digit == 2) || (last_digit == 3) || (last_digit == 4)
    then codes "минуты"
    else codes "минут"
