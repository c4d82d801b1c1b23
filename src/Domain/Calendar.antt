-- ===== src/Domain/Calendar.antt =====
-- The `year`, `month` and `day` of a `datetime`, and its `strftime("%Y-%m-%d")`: the proleptic
-- Gregorian calendar of the standard library, counted in microseconds since 1970-01-01T00:00Z.
use telegram_subscription_ma.Base.{
  ℕ, ◌+◌, ◌-◌, ◌*◌, ◌/◌, ◌%◌, ◌<◌, ◌≤◌, ◌≡◌, refl, arith, ltb, leb, if◌then◌else◌, ◌++◌, ◌∷◌,
}
use telegram_subscription_ma.Base.Text.{Text, codes}
use telegram_subscription_ma.Base.Numerals.{str_nat}

abbrev pub microseconds_per_day : ℕ
microseconds_per_day = 86_400_000_000

-- The day of a 400-year era that begins on the first of March.
day_of_era : ℕ → ℕ
day_of_era t = (t / microseconds_per_day + 719_468) % 146_097

year_of_era : ℕ → ℕ
year_of_era doe = (doe - doe / 1_460 + doe / 36_524 - doe / 146_096) / 365

day_of_year : ℕ → ℕ
unfolding year_of_era
day_of_year doe = let yoe = year_of_era doe in doe - (365 * yoe + yoe / 4 - yoe / 100)

-- Months from March, as the calendar repeats every five of them.
month_index : ℕ → ℕ
unfolding day_of_year day_of_era
month_index t = (5 * day_of_year (day_of_era t) + 2) / 153

unfoldable pub month : ℕ → ℕ
unfolding month_index
month t = let mp = month_index t in if ltb mp 10 then mp + 3 else mp - 9

unfoldable pub day : ℕ → ℕ
unfolding month_index
day t = day_of_year (day_of_era t) - (153 * month_index t + 2) / 5 + 1

unfoldable pub year : ℕ → ℕ
unfolding month
year t =
    let era = (t / microseconds_per_day + 719_468) / 146_097 in
    year_of_era (day_of_era t) + era * 400 + (if leb (month t) 2 then 1 else 0)

-- `%m` and `%d`
two_digits : ℕ → Text
two_digits n = if ltb n 10 then b'0' ∷ str_nat n else str_nat n

-- `dt.strftime("%Y-%m-%d")`, for the years that have four digits.
unfoldable pub format_iso_date : ℕ → Text
unfolding year month day two_digits str_nat
format_iso_date t = str_nat (year t) ++ b'-' ∷ two_digits (month t) ++ b'-' ∷ two_digits (day t)

cutoff_date : format_iso_date 1_790_812_800_000_000 ≡ codes "2026-10-01"
unfolding format_iso_date
cutoff_date = refl

leap_day : format_iso_date 951_782_400_000_000 ≡ codes "2000-02-29"
unfolding format_iso_date
leap_day = refl

day_of_year_bound : (doe : ℕ) → doe < 146_097 → day_of_year doe ≤ 365
unfolding day_of_year
day_of_year_bound doe h = omega arith

-- Every moment has one of the twelve months.
pub month_bounds : (t : ℕ) → (1 ≤ month t) × (month t ≤ 12)
unfolding month day_of_era
month_bounds t = ground (arith, day_of_year_bound (day_of_era t))
