-- ===== src/Jobs/ExpirationWarnings/Reminders.antt =====
-- Who is reminded by app/jobs/expiration_warnings.py, and how often.
use telegram_subscription_ma.Base.{
  ℕ, ◌≤◌, ◌≡◌, refl, true, false, Bool-cases, inl, inr, none, some, List, ◌∷◌, arith, find,
  if◌then◌else◌, ◌==◌, subst, sym,
}
use telegram_subscription_ma.Base.Text.{Text}
use telegram_subscription_ma.Base.Rows.{put, has_key, find-put_self}
use telegram_subscription_ma.Base.Action.{ok}
use telegram_subscription_ma.Db.Models.{active, expiring, status_eq, User, Subscription}
use telegram_subscription_ma.Db.Users
use telegram_subscription_ma.Db.Subscriptions.{is_live}
use telegram_subscription_ma.Db.Invariant.{subscription_key}
use telegram_subscription_ma.Db.Laws.{update_status_lem, set_last_warning_lem}
use telegram_subscription_ma.Domain.Subscription.{can_transition}
use telegram_subscription_ma.Domain.Time.{days_remaining}
use telegram_subscription_ma.Telegram.{Call, Bot, World}
use telegram_subscription_ma.Jobs.ExpirationWarnings.{
  warning_window_days, reminder, warning_text, already_warned, text_for, record_warning, deliver,
  remind, begin_expiring, warn_with, warn_one,
}

abbrev pub with_row : Subscription → World → World
with_row s w = record w {
  database = record w.database { subscriptions = put subscription_key s w.database.subscriptions };
}

abbrev pub as_expiring : Subscription → Subscription
as_expiring s = record s { status = expiring }

abbrev pub with_mark : ℕ → Subscription → Subscription
with_mark days_left s = record s { last_warning_days_left = some days_left }

-- One message, and a mark on the row if it was delivered.
abbrev pub after_message : Bot → ℕ → Text → User → Subscription → World → World
after_message bot days_left text user row w =
    let calls = reminder user text ∷ w.calls in
    if bot.accepts w.calls (reminder user text)
    then record (with_row (with_mark days_left row) w) { calls = calls }
    else record w { calls = calls }

abbrev pub after_reminder : Bot → ℕ → Text → User → Subscription → World → World
after_reminder bot days_left text user row w =
    if already_warned days_left row.last_warning_days_left
    then w
    else after_message bot days_left text user row w

module _ (bot : Bot) (days_left : ℕ) (text : Text) (user : User) (row : Subscription) (w : World)
    (stored : find (has_key subscription_key row.id) w.database.subscriptions ≡ some row)
    (known : find (λ u. u.id == row.user_id) w.database.users ≡ some user)
    (worded : text_for row days_left ≡ ok text) where
  record_warning_lem :
      (calls : List Call)
      → record_warning row days_left true (record w { calls = calls })
        ≡ (ok tt, record (with_row (with_mark days_left row) w) { calls = calls })
  unfolding record_warning
  record_warning_lem calls =
      ground (arith, set_last_warning_lem row (some days_left) w.database stored)

  deliver_lem :
      deliver bot row days_left (some user) w ≡ (ok tt, after_message bot days_left text user row w)
  unfolding deliver record_warning
  deliver_lem = elim (Bool-cases (bot.accepts w.calls (reminder user text))) [
    | inl y ↦ ground (arith, worded, y, record_warning_lem (reminder user text ∷ w.calls))
    | inr n ↦ ground (arith, worded, n)
  ]

  remind_lem :
      remind bot days_left (some row) w ≡ (ok tt, after_reminder bot days_left text user row w)
  unfolding remind Users.get_by_id
  remind_lem = elim (Bool-cases (already_warned days_left row.last_warning_days_left)) [
    | inl y ↦ ground (arith, y)
    | inr n ↦ ground (arith, n, deliver_lem)
  ]

pub begin_expiring_active :
    (s : Subscription) (w : World)
    → find (has_key subscription_key s.id) w.database.subscriptions ≡ some s
    → s.status ≡ active
    → begin_expiring s w ≡ (ok (some (as_expiring s)), with_row (as_expiring s) w)
unfolding begin_expiring can_transition
begin_expiring_active s w stored e = ground (
  arith,
  update_status_lem s expiring none w.database stored
      (subst (λ st. can_transition st expiring ≡ true) (sym e) refl),
)

pub begin_expiring_already :
    (s : Subscription) (w : World) → s.status ≡ expiring → begin_expiring s w ≡ (ok (some s), w)
unfolding begin_expiring
begin_expiring_already s w e = ground arith

-- A row that is marked for the count of days that is left, or for a smaller one, is left alone.
pub marked_skipped :
    (bot : Bot) (now e d : ℕ) (s : Subscription) (w : World)
    → s.status ≡ expiring
    → s.expires_at ≡ some e
    → s.last_warning_days_left ≡ some d
    → d ≤ days_remaining now e
    → warn_one bot now s w ≡ (ok tt, w)
unfolding warn_one warn_with remind
marked_skipped bot now e d s w e' dated marked le = ground (arith, begin_expiring_already s w e')

module _ (bot : Bot) (now e : ℕ) (text : Text) (user : User) (s : Subscription) (w : World)
    (stored : find (has_key subscription_key s.id) w.database.subscriptions ≡ some s)
    (dated : s.expires_at ≡ some e)
    (known : find (λ u. u.id == s.user_id) w.database.users ≡ some user)
    (due : 1 ≤ days_remaining now e) (near : days_remaining now e ≤ warning_window_days)
    (worded : warning_text (days_remaining now e) e ≡ ok text) where
  worded_for : text_for s (days_remaining now e) ≡ ok text
  unfolding text_for
  worded_for = ground arith

  -- A stored ACTIVE row with one to three days left, whose user exists and whose date can be written,
  -- becomes EXPIRING. Unless it is marked for that count
  -- of days or a smaller one, its user gets one message, and the row is marked with the count if and
  -- only if the message is delivered.
  pub warn_one_active :
      s.status ≡ active
      → warn_one bot now s w ≡ (
        ok tt,
        after_reminder bot
            (days_remaining now e)
            text
            user
            (as_expiring s)
            (with_row (as_expiring s) w),
      )
  unfolding warn_one warn_with text_for
  warn_one_active e' = ground (
    arith,
    begin_expiring_active s w stored e',
    remind_lem bot (days_remaining now e) text user (as_expiring s) (with_row (as_expiring s) w)
        (find-put_self subscription_key (as_expiring s) s w.database.subscriptions stored) known
        worded_for,
  )

  -- The same for a row that is EXPIRING already, which stays so.
  pub warn_one_expiring :
      s.status ≡ expiring
      → warn_one bot now s w ≡ (ok tt, after_reminder bot (days_remaining now e) text user s w)
  unfolding warn_one warn_with
  warn_one_expiring e' = ground (
    arith,
    begin_expiring_already s w e',
    remind_lem bot (days_remaining now e) text user s w stored known worded_for,
  )

  -- Once the reminder of a stored live row is delivered, which was not marked for its count of days or
  -- a smaller one, the row as it is stored then is passed over when the same or a larger count is
  -- found again: no message, no change.
  pub warn_one_once :
      is_live s ≡ true
      → already_warned (days_remaining now e) s.last_warning_days_left ≡ false
      → bot.accepts w.calls (reminder user text) ≡ true
      → (next_bot : Bot) (next_now : ℕ) → days_remaining now e ≤ days_remaining next_now e
      → let w' = (warn_one bot now s w).1 in
        (s' : Subscription) × (find (has_key subscription_key s.id) w'.database.subscriptions
          ≡ some s')
        × (warn_one next_bot next_now s' w' ≡ (ok tt, w'))
  warn_one_once live fresh reached next_bot next_now more =
      let s' = with_mark (days_remaining now e) (as_expiring s) in
      let w1 = with_row (as_expiring s) w in
      let stored1 =
        find-put_self subscription_key (as_expiring s) s w.database.subscriptions stored in
      let skipped =
        marked_skipped next_bot next_now e (days_remaining now e) s' (warn_one bot now s w).1 refl
          dated refl more in
      elim (Bool-cases (status_eq s.status active)) [
        | inl a ↦ (
          s',
          ground (
            arith,
            warn_one_active (ground arith),
            reached,
            fresh,
            find-put_self subscription_key s' (as_expiring s) w1.database.subscriptions stored1,
          ),
          skipped,
        )
        | inr n ↦ (
          s',
          ground (
            arith,
            warn_one_expiring (ground arith),
            reached,
            fresh,
            find-put_self subscription_key (with_mark (days_remaining now e) s) s
                w.database.subscriptions stored,
          ),
          skipped,
        )
      ]
