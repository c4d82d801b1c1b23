-- ===== src/Migrations.antt =====
-- alembic/versions/11dc15c10ee4_add_subscription_last_warning_days_left.py: what the upgrade writes to
-- the new column. `now()` is the moment of the migration; a quotient is rounded up exactly.
pub mod Silence
use telegram_subscription_ma.Base.{ℕ, ◌-◌, max, Option, none, some, List, map, if◌then◌else◌}
use telegram_subscription_ma.Db.Models.{expiring, status_eq, Subscription, Database}
use telegram_subscription_ma.Domain.Calendar.{microseconds_per_day}
use telegram_subscription_ma.Domain.Time.{ceil_div}

-- GREATEST(1, CEIL(…)), which passes over NULL.
abbrev pub greatest_days : ℕ → Option ℕ → ℕ
greatest_days now none = 1
greatest_days now (some expires_at) = max 1 (ceil_div (expires_at - now) microseconds_per_day)

abbrev pub backfill_row : ℕ → Subscription → Subscription
backfill_row now s =
    if status_eq s.status expiring
    then record s { last_warning_days_left = some (greatest_days now s.expires_at) }
    else s

abbrev pub upgrade : ℕ → Database → Database
upgrade now db = record db { subscriptions = map (backfill_row now) db.subscriptions }
