-- ===== src/Tests/Jobs.antt =====
-- The theorems about app/jobs at concrete inputs.
use telegram_subscription_ma.Base.{ℕ, ◌+◌, ◌*◌, ◌≡◌, refl, true, false, none, some, []}
use telegram_subscription_ma.Base.Int.{pos}
use telegram_subscription_ma.Base.Text.{codes}
use telegram_subscription_ma.Telegram.{member, Bot, Settings, World}
use telegram_subscription_ma.Jobs.AutoKick.{run_auto_kick}
use telegram_subscription_ma.Jobs.AutoKick.Sweep.{sweep, run_auto_kick_lem, run_auto_kick_again}
use telegram_subscription_ma.Jobs.AutoKick.Discipline.{
  AreLifted, run_auto_kick-AreLifted, visible, run_auto_kick_dry,
}
use telegram_subscription_ma.Jobs.ExpirationWarnings.{warning_text, warn_one}
use telegram_subscription_ma.Jobs.ExpirationWarnings.Reminders.{
  with_row, as_expiring, after_reminder, warn_one_active, warn_one_expiring, warn_one_once,
}
use telegram_subscription_ma.Db.Models.{Subscription, kicked}
use telegram_subscription_ma.Db.Invariant.{subscription_key}
use telegram_subscription_ma.Base.Rows.{has_key}
use telegram_subscription_ma.Base.Text.{Text}
use telegram_subscription_ma.Base.Action.{ok}
use telegram_subscription_ma.Base.{find, ◌++◌, arith, inl, inr, ◌≤◌, ◌∷◌}
use telegram_subscription_ma.Domain.Time.{days_remaining, format_date_ru, pluralize_days_ru}
use telegram_subscription_ma.Domain.Calendar.{month, day}
use telegram_subscription_ma.Base.Numerals.{str_nat}
use telegram_subscription_ma.Jobs.AutoKick.{kick_one}
use telegram_subscription_ma.Jobs.AutoKick.Transitions
use telegram_subscription_ma.Jobs.AutoKick.Transitions.{with_status}
use telegram_subscription_ma.Jobs.AutoKick.Outcome.{
  kick_one_current, kick_one_stale, kick_one_spares,
}
use telegram_subscription_ma.Db.Subscriptions.{get_active_or_expiring_for_user, is_live}
use telegram_subscription_ma.Db.Latest.{get_active_or_expiring_for_user_latest}
use telegram_subscription_ma.Tests.Data.{noon, day_length, shop, anna, annas}

-- Telegram does all that it is asked, and knows everyone as a plain member.
abbrev pub obliging : Bot
obliging = record {
  delivers = λ h t text. true;
  invites = λ h c n. some (codes "https://t.me/+abc");
  membership = λ h c t. some member;
  bans = λ h c t. true;
  unbans = λ h c t. true;
  chat_info = λ h t. some (record { full_name = some (codes "Anna"); username = none });
  accepts = λ h c. true;
}

abbrev pub live_settings : Settings
live_settings = record {
  admin_id = pos 1;
  channel_id = some (codes "-100");
  stripe_webhook_secret = some (codes "whsec");
  dry_run_kick = false;
}

abbrev dry_settings : Settings
dry_settings = record live_settings { dry_run_kick = true }

-- Ten days later Anna's subscription has run out.
abbrev later : ℕ
later = noon + 10 * day_length

abbrev pub quiet_world : World
quiet_world = record { database = shop; calls = [] }

run_auto_kick-AreLifted_example :
    AreLifted obliging (run_auto_kick live_settings obliging later quiet_world).1.calls
run_auto_kick-AreLifted_example =
    run_auto_kick-AreLifted live_settings obliging later quiet_world (tt, refl, λ c t. refl)

run_auto_kick_dry_example :
    visible (run_auto_kick dry_settings obliging later quiet_world).1.calls ≡ visible []
run_auto_kick_dry_example = run_auto_kick_dry dry_settings obliging later quiet_world refl

abbrev annas_reminder : Text
annas_reminder =
    codes "⏳ Подписка закончится через 2 дня (3 января"
    ++ codes ").\n\nПродли доступ через «💳 Оформить подписку» — чтобы не потерять канал 💫"

annas_reminder_text :
    warning_text (days_remaining noon (noon + 2 * day_length)) (noon + 2 * day_length)
    ≡ ok annas_reminder
unfolding warning_text days_remaining format_date_ru pluralize_days_ru month day str_nat
annas_reminder_text = refl

warn_one_active_example : warn_one obliging noon annas quiet_world ≡ (
  ok tt,
  after_reminder obliging
      (days_remaining noon (noon + 2 * day_length))
      annas_reminder
      anna
      (as_expiring annas)
      (with_row (as_expiring annas) quiet_world),
)
unfolding days_remaining
warn_one_active_example =
    warn_one_active obliging noon (noon + 2 * day_length) annas_reminder anna annas quiet_world refl
      refl refl (omega arith) (omega arith) annas_reminder_text refl

abbrev pub expiring_world : World
expiring_world = with_row (as_expiring annas) quiet_world

warn_one_expiring_example : warn_one obliging noon (as_expiring annas) expiring_world ≡ (
  ok tt,
  after_reminder obliging
      (days_remaining noon (noon + 2 * day_length))
      annas_reminder
      anna
      (as_expiring annas)
      expiring_world,
)
unfolding days_remaining
warn_one_expiring_example =
    warn_one_expiring obliging noon (noon + 2 * day_length) annas_reminder anna (as_expiring annas)
      expiring_world refl refl refl (omega arith) (omega arith) annas_reminder_text refl

warn_one_once_example :
    let w' = (warn_one obliging noon annas quiet_world).1 in
    (s' : Subscription) × (find (has_key subscription_key 1) w'.database.subscriptions ≡ some s')
    × (warn_one obliging (noon + 5) s' w' ≡ (ok tt, w'))
unfolding days_remaining
warn_one_once_example =
    warn_one_once obliging noon (noon + 2 * day_length) annas_reminder anna annas quiet_world refl
      refl refl (omega arith) (omega arith) annas_reminder_text refl refl refl obliging (noon + 5)
      (omega arith)

abbrev annas_lapsed : Subscription
annas_lapsed = record annas { id = 3; expires_at = some (noon + day_length) }

-- Anna has a second live row, from before renewals reused the first.
abbrev pub doubled : World
doubled = record {
  database = record shop { subscriptions = annas_lapsed ∷ shop.subscriptions };
  calls = [];
}

kick_one_current_example :
    let (result, w') = kick_one live_settings obliging later annas quiet_world in
    (result ≡ ok tt) × (w'.database ≡ Transitions.with_row (with_status kicked annas) shop)
kick_one_current_example =
    kick_one_current live_settings obliging later annas annas quiet_world refl refl refl

kick_one_stale_example :
    kick_one live_settings obliging later (as_expiring annas) quiet_world ≡ (ok tt, quiet_world)
kick_one_stale_example =
    kick_one_stale live_settings obliging later (as_expiring annas) annas quiet_world refl refl
      (ground arith)

kick_one_spares_example :
    kick_one live_settings obliging (noon + day_length + 1) annas_lapsed doubled ≡ (
      ok tt,
      record doubled {
        database = Transitions.with_row (with_status kicked annas_lapsed) doubled.database;
      },
    )
kick_one_spares_example =
    kick_one_spares live_settings obliging (noon + day_length + 1) annas_lapsed annas_lapsed doubled
      refl refl refl (refl, (refl, (refl, tt))) annas (noon + 2 * day_length) (inr (inr (inl refl)))
      (omega arith) refl refl refl (omega arith)

get_active_or_expiring_for_user_latest_example :
    (x : Subscription) × (a : ℕ) × (get_active_or_expiring_for_user 1 doubled.database
      ≡ (ok (some x), doubled.database))
    × (x.user_id ≡ 1)
    × (is_live x ≡ true)
    × (x.expires_at ≡ some a)
    × (noon + 2 * day_length ≤ a)
get_active_or_expiring_for_user_latest_example =
    get_active_or_expiring_for_user_latest doubled.database (refl, (refl, (refl, tt))) 1 annas
      (noon + 2 * day_length) (inr (inr (inl refl))) refl refl refl

run_auto_kick_lem_example :
    ((run_auto_kick live_settings obliging later doubled).0 ≡ ok tt)
    × ((run_auto_kick live_settings obliging later doubled).1.database
        ≡ sweep later doubled.database)
run_auto_kick_lem_example = run_auto_kick_lem live_settings obliging later 4 doubled (omega arith)

run_auto_kick_again_example :
    let w' = (run_auto_kick live_settings obliging later doubled).1 in
    run_auto_kick dry_settings obliging later w' ≡ (ok tt, w')
run_auto_kick_again_example =
    run_auto_kick_again live_settings obliging later 4 doubled (omega arith) dry_settings obliging
