-- ===== src/Domain/Time.antt =====
-- app/domain/time.py. `utcnow()` is the argument `now` of what calls it. Python divides
-- microseconds as floats before it rounds up; at the magnitudes of a subscription the quotient
-- of a double rounds up as the exact one does, which is what stands here.
pub mod Bounds
use telegram_subscription_ma.Base.{
  ℕ, ◌+◌, ◌-◌, ◌*◌, ◌/◌, ◌%◌, max, Bool, ◌&&◌, ◌||◌, leb, ◌==◌, if◌then◌else◌, Option, none, some,
  List, [], ◌∷◌, ◌++◌, find,
}
use mathlib.Core.Option
use telegram_subscription_ma.Base.Text.{Text, codes}
use telegram_subscription_ma.Base.Action.{Result, ok, err}
use telegram_subscription_ma.Base.Numerals.{str_nat}
use telegram_subscription_ma.Db.Exceptions.{Exception, key_error}
use telegram_subscription_ma.Domain.Calendar.{microseconds_per_day, month, day}

-- `math.ceil(a / b)`
abbrev pub ceil_div : ℕ → ℕ → ℕ
ceil_div a b = (a + (b - 1)) / b

-- Where `expires_at` has passed the difference is negative and rounds up to 0 or less; the
-- difference of naturals is then 0, and `max` gives 1 for either.
unfoldable pub days_remaining : ℕ → ℕ → ℕ
days_remaining now expires_at = max 1 (ceil_div (expires_at - now) microseconds_per_day)

abbrev months_genitive_ru : List (ℕ × Text)
months_genitive_ru =
    (1, codes "января")
    ∷ (2, codes "февраля")
    ∷ (3, codes "марта")
    ∷ (4, codes "апреля")
    ∷ (5, codes "мая")
    ∷ (6, codes "июня")
    ∷ (7, codes "июля")
    ∷ (8, codes "августа")
    ∷ (9, codes "сентября")
    ∷ (10, codes "октября")
    ∷ (11, codes "ноября")
    ∷ (12, codes "декабря")
    ∷ []

-- `_MONTHS_GENITIVE_RU[month]`, where a missing key is a KeyError.
month_name : ℕ → Result Exception Text
month_name m = elim (find (λ e. e.0 == m) months_genitive_ru) [
  | none ↦ err key_error
  | some e ↦ ok e.1
]

unfoldable pub format_date_ru : ℕ → Result Exception Text
unfolding month_name
format_date_ru dt = elim (month_name (month dt)) [
  | ok name ↦ ok (str_nat (day dt) ++ codes " " ++ name)
  | err e ↦ err e
]

-- The three forms of a counted noun; pluralize_days_ru and pluralize_minutes_ru share the rule.
unfoldable pub pluralize_days_ru : ℕ → Text
pluralize_days_ru n =
    let last_digit = n % 10 in
    if leb 11 (n % 100) && leb (n % 100) 14
    then codes "дней"
    else if last_digit == 1
    then codes "день"
    else if (last_digit == 2) || (last_digit == 3) || (last_digit == 4)
    then codes "дня"
    else codes "дней"
