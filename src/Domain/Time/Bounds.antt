-- ===== src/Domain/Time/Bounds.antt =====
-- What the counts and the texts of app/domain/time.py promise.
use telegram_subscription_ma.Base.{ℕ, ◌+◌, ◌*◌, ◌%◌, ◌≤◌, ◌≡◌, ◌≢◌, ◌↔◌, arith, ◌++◌, inl, inr}
use telegram_subscription_ma.Base.Text.{Text, codes}
use telegram_subscription_ma.Base.Action.{ok, err, Result-cases}
use telegram_subscription_ma.Base.Numerals.{str_nat}
use telegram_subscription_ma.Db.Exceptions.{Exception}
use telegram_subscription_ma.Domain.Calendar.{microseconds_per_day, month, day, month_bounds}
use telegram_subscription_ma.Domain.Time.{
  days_remaining, month_name, format_date_ru, pluralize_days_ru,
}

-- `days_remaining` is the least number of whole days, one at the least, in which the subscription
-- runs out: it is at most `d` exactly if `d` days from now reach `expires_at`.
pub days_remaining_least :
    (now expires_at d : ℕ)
    → 1 ≤ d
    → (days_remaining now expires_at ≤ d) ↔ (expires_at ≤ now + d * microseconds_per_day)
unfolding days_remaining
days_remaining_least now expires_at d h = (λ e. omega arith, λ e. omega arith)

-- A subscription that runs out within `w` days of an earlier moment has between 1 and `w` days
-- left at any later moment, also after it has run out.
pub days_remaining_window :
    (listed now expires_at w : ℕ)
    → listed ≤ now
    → 1 ≤ w
    → expires_at ≤ listed + w * microseconds_per_day
    → (1 ≤ days_remaining now expires_at) × (days_remaining now expires_at ≤ w)
unfolding days_remaining
days_remaining_window listed now expires_at w later pos_w due = omega arith

month_name_known : (m : ℕ) → 1 ≤ m → m ≤ 12 → (e : Exception) → month_name m ≢ err e
unfolding month_name
month_name_known m lo hi e = ground arith

month_name_total : (m : ℕ) → 1 ≤ m → m ≤ 12 → (name : Text) × (month_name m ≡ ok name)
month_name_total m lo hi = elim (Result-cases (month_name m)) [
  | inl found ↦ found
  | inr (e, missing) ↦ absurd (month_name_known m lo hi e missing)
]

-- A date can be formatted at every moment: the dictionary of months has no gap.
pub format_date_ru_total : (dt : ℕ) → (text : Text) × (format_date_ru dt ≡ ok text)
unfolding format_date_ru
format_date_ru_total dt =
    let (lo, hi) = month_bounds dt in
    let (name, e) = month_name_total (month dt) lo hi in
    (str_nat (day dt) ++ codes " " ++ name, rw (e, format_date_ru))

-- The singular stands exactly after a count that ends in 1 and not in 11.
pub pluralize_days_ru_one :
    (n : ℕ) → (pluralize_days_ru n ≡ codes "день") ↔ ((n % 10 ≡ 1) × (n % 100 ≢ 11))
unfolding pluralize_days_ru
pluralize_days_ru_one n = (λ e. ground arith, λ e. ground arith)
