-- ===== src/Jobs/ExpirationWarnings.antt =====
-- app/jobs/expiration_warnings.py. `now` is `utcnow()` when the job asks for it; the log is left out.
pub mod Reminders
pub mod Runs
use telegram_subscription_ma.Base.{
  ℕ, leb, Bool, true, false, not, ◌&&◌, Option, none, some, List, [], ◌∷◌, ◌++◌, if◌then◌else◌,
}
use telegram_subscription_ma.Base.Text.{Text, codes}
use telegram_subscription_ma.Base.Numerals.{str_nat}
use telegram_subscription_ma.Base.Action.{Result, ok, err, pure, raise, lift, catch, ◌>>=◌, ◌>>◌}
use telegram_subscription_ma.Db.Models.{active, expiring, status_eq, User, Subscription}
use telegram_subscription_ma.Db.Exceptions.{Exception, invalid_transition, type_error}
use telegram_subscription_ma.Db.Users
use telegram_subscription_ma.Db.Subscriptions
use telegram_subscription_ma.Domain.Time.{days_remaining, format_date_ru, pluralize_days_ru}
use telegram_subscription_ma.Telegram.{Call, send_menu, Bot, Program, in_db, call}
use telegram_subscription_ma.Keyboards.{renewal_reminder_menu}

abbrev pub warning_window_days : ℕ
warning_window_days = 3

multi_day_warning_text : ℕ → Text → Text → Text
multi_day_warning_text days day_word date =
    codes "⏳ Подписка закончится через "
    ++ str_nat days
    ++ codes " "
    ++ day_word
    ++ codes " ("
    ++ date
    ++ codes ").\n\nПродли доступ через «💳 Оформить подписку» — чтобы не потерять канал 💫"

last_day_warning_text : Text → Text
last_day_warning_text date =
    codes "⚠"
    ++ 0xFE0F ∷ codes " Завтра последний день подписки ("
    ++ date
    ++ codes ").\n\nПродли сегодня через «💳 Оформить подписку», иначе доступ к каналу закроется 💫"

unfoldable pub warning_text : ℕ → ℕ → Result Exception Text
unfolding multi_day_warning_text last_day_warning_text
warning_text days_left expires_at = elim (format_date_ru expires_at) [
  | err e ↦ err e
  | ok date ↦ ok (
      if leb days_left 1
      then last_day_warning_text date
      else multi_day_warning_text days_left (pluralize_days_ru days_left) date)
]

-- `already_warned_for_this_or_a_later_day`
abbrev pub already_warned : ℕ → Option ℕ → Bool
already_warned days_left none = false
already_warned days_left (some d) = leb d days_left

-- A reminder is recorded once it is delivered.
unfoldable pub record_warning : Subscription → ℕ → Bool → Program (Unit {0})
record_warning row days_left true =
    in_db (Subscriptions.set_last_warning_days_left row.id (some days_left)) >> pure tt
record_warning row days_left false = pure tt

-- `_warning_text(days_left, subscription.expires_at)`, where a missing expiry is a TypeError.
unfoldable pub text_for : Subscription → ℕ → Result Exception Text
text_for row days_left = elim row.expires_at [
  | none ↦ err type_error
  | some e ↦ warning_text days_left e
]

-- The message of a reminder.
abbrev pub reminder : User → Text → Call
reminder user text = send_menu user.telegram_id text renewal_reminder_menu

unfoldable pub deliver : Bot → Subscription → ℕ → Option User → Program (Unit {0})
deliver bot row days_left none = pure tt
deliver bot row days_left (some user) = do
  text ← lift (text_for row days_left)
  delivered ← call (reminder user text) (λ h. bot.accepts h (reminder user text))
  record_warning row days_left delivered

unfoldable pub remind : Bot → ℕ → Option Subscription → Program (Unit {0})
remind bot days_left none = pure tt
remind bot days_left (some row) =
    if already_warned days_left row.last_warning_days_left
    then pure tt
    else (in_db (Users.get_by_id row.user_id) >>= deliver bot row days_left)

-- `except InvalidTransitionError: … return`
unfoldable pub skip_lost_race : Exception → Program (Option Subscription)
skip_lost_race (invalid_transition from_status to_status) = pure none
skip_lost_race e = raise e

-- The row to remind: an ACTIVE one is moved to EXPIRING first.
unfoldable pub begin_expiring : Subscription → Program (Option Subscription)
unfolding skip_lost_race
begin_expiring subscription =
    if status_eq subscription.status active
    then catch
        (in_db (Subscriptions.update_status subscription.id expiring none) >>= λ row.
          pure (some row))
        skip_lost_race
    else pure (some subscription)

-- `_warn_one` from the count of days on.
unfoldable pub warn_with : Bot → Subscription → ℕ → Program (Unit {0})
warn_with bot subscription days_left =
    if not (leb 1 days_left && leb days_left warning_window_days)
    then pure tt
    else (begin_expiring subscription >>= remind bot days_left)

unfoldable pub warn_one : Bot → ℕ → Subscription → Program (Unit {0})
warn_one bot now subscription = elim subscription.expires_at [
  | none ↦ raise type_error
  | some e ↦ warn_with bot subscription (days_remaining now e)
]

unfoldable pub warn_each : Bot → ℕ → List Subscription → Program (Unit {0})
warn_each bot now [] = pure tt
warn_each bot now (s ∷ rest) = warn_one bot now s >> warn_each bot now rest

unfoldable pub run_expiration_warnings : Bot → ℕ → Program (Unit {0})
run_expiration_warnings bot now =
    in_db (Subscriptions.list_expiring_within now warning_window_days) >>= warn_each bot now
