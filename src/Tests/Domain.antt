-- ===== src/Tests/Domain.antt =====
-- The theorems about app/domain at concrete inputs.
use telegram_subscription_ma.Base.{◌+◌, ◌*◌, ◌≤◌, ◌≡◌, ◌↔◌, refl, some, arith, true}
use telegram_subscription_ma.Base.Int.{negsuc}
use telegram_subscription_ma.Base.Text.{codes}
use telegram_subscription_ma.Base.Action.{ok}
use telegram_subscription_ma.Base.Numerals.{int_of, str_int, str_nat, int_of-str_int}
use telegram_subscription_ma.Db.Models.{active, expired, kicked}
use telegram_subscription_ma.Domain.Calendar.{microseconds_per_day, month, day}
use telegram_subscription_ma.Domain.Subscription.{can_transition}
use telegram_subscription_ma.Domain.Subscription.Paths.{
  Step, Reach, here, next, warn, run_out, remove, steps, can_transition-iff-Step,
  removal_takes_three_steps,
}
use telegram_subscription_ma.Domain.Time.{days_remaining, format_date_ru, pluralize_days_ru}
use telegram_subscription_ma.Domain.Time.Bounds.{days_remaining_least}
use telegram_subscription_ma.Domain.RateLimit.{
  microseconds_per_minute, question_cooldown, minutes_until_allowed, pluralize_minutes_ru,
}
use telegram_subscription_ma.Domain.RateLimit.Cooldown.{
  minutes_until_allowed_least, question_wait_bound,
}
use telegram_subscription_ma.Tests.Data.{noon, day_length}

abbrev lapsed : Reach active kicked
lapsed = next (next (next here warn) run_out) remove

can_transition-iff-Step_example : (can_transition expired kicked ≡ true) ↔ Step expired kicked
can_transition-iff-Step_example = can_transition-iff-Step expired kicked

removal_takes_three_steps_example : 3 ≤ steps lapsed
removal_takes_three_steps_example = removal_takes_three_steps lapsed

days_remaining_least_example :
    (days_remaining noon (noon + day_length + 1) ≤ 2)
    ↔ (noon + day_length + 1 ≤ noon + 2 * microseconds_per_day)
days_remaining_least_example = days_remaining_least noon (noon + day_length + 1) 2 (omega arith)

minutes_until_allowed_least_example :
    (minutes_until_allowed noon (some noon) question_cooldown ≤ 60)
    ↔ (noon + question_cooldown ≤ noon + 60 * microseconds_per_minute)
minutes_until_allowed_least_example = minutes_until_allowed_least noon noon question_cooldown 60

question_wait_bound_example : minutes_until_allowed (noon + 1) (some noon) question_cooldown ≤ 60
question_wait_bound_example = question_wait_bound (noon + 1) noon (omega arith)

int_of-str_int_example : int_of (str_int (negsuc 41)) ≡ some (negsuc 41)
int_of-str_int_example = int_of-str_int (negsuc 41)

new_year : format_date_ru noon ≡ ok (codes "1 января")
unfolding format_date_ru month day str_nat
new_year = refl

plurals : (pluralize_days_ru 11 ≡ codes "дней") × (pluralize_minutes_ru 22 ≡ codes "минуты")
unfolding pluralize_days_ru pluralize_minutes_ru
plurals = (refl, refl)
