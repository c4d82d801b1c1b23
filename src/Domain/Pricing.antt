-- ===== src/Domain/Pricing.antt =====
-- app/domain/pricing.py. `local_now` is `datetime.now()`, the naive local time.
use telegram_subscription_ma.Base.{ℕ, ltb, if◌then◌else◌}

-- `datetime(2026, 10, 1)`
abbrev pub price_cutoff : ℕ
price_cutoff = 1_790_812_800_000_000

abbrev pub price_before_cutoff : ℕ
price_before_cutoff = 45

abbrev pub price_after_cutoff : ℕ
price_after_cutoff = 55

unfoldable pub get_current_price : ℕ → ℕ
get_current_price local_now =
    if ltb local_now price_cutoff then price_before_cutoff else price_after_cutoff
