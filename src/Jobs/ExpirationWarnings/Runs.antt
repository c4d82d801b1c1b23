-- ===== src/Jobs/ExpirationWarnings/Runs.antt =====
-- One round of the loop of app/jobs/expiration_warnings.py, for a row that is stored.
pub mod Sweep
use telegram_subscription_ma.Base.{
  ℕ, ◌+◌, ◌*◌, ◌≡◌, ◌≢◌, ◌<◌, ◌≤◌, refl, sym, ap, ◌∙◌, subst, Bool, true, false, Bool-cases,
  Option-cases, inl, inr, Option, none, some, List, [], ◌∷◌, map, arith, find, where_rows, All,
  if◌then◌else◌, leb, ◌&&◌, ◌==◌,
}
use telegram_subscription_ma.Base.Text.{Text}
use telegram_subscription_ma.Base.Rows.{
  Below, put, put-Below, has_key, find-put_ne, find-put_self, put_absent,
}
use telegram_subscription_ma.Base.Batch.{
  Distinct, All-intro, where_rows-Distinct, put_each, put_each-where_rows,
}
use telegram_subscription_ma.Base.Sorted.{In, In-where_rows, find-In}
use telegram_subscription_ma.Base.Action.{Result, ok, Result-cases}
use telegram_subscription_ma.Db.Models.{active, expiring, status_eq, User, Subscription, Database}
use telegram_subscription_ma.Db.Users
use telegram_subscription_ma.Db.Exceptions.{Exception}
use telegram_subscription_ma.Db.Subscriptions.{is_live, expires_in, list_expiring_within}
use telegram_subscription_ma.Db.Invariant.{subscription_key}
use telegram_subscription_ma.Db.Laws.{put-put, set_last_warning_lem}
use telegram_subscription_ma.Domain.Calendar.{microseconds_per_day}
use telegram_subscription_ma.Domain.Time.{days_remaining}
use telegram_subscription_ma.Domain.Time.Bounds.{days_remaining_window, format_date_ru_total}
use telegram_subscription_ma.Telegram.{Bot, World, in_db}
use telegram_subscription_ma.Jobs.ExpirationWarnings.{
  warning_window_days, reminder, warning_text, text_for, already_warned, record_warning, deliver,
  remind, begin_expiring, warn_with, warn_one, warn_each, run_expiration_warnings,
}
use telegram_subscription_ma.Jobs.ExpirationWarnings.Reminders.{
  with_row, as_expiring, with_mark, begin_expiring_active, begin_expiring_already,
}

-- A row without the mark of its last reminder.
abbrev pub unmarked : Subscription → Subscription
unmarked s = record s { last_warning_days_left = none }

put_stored :
    (s : Subscription) (n : ℕ) (rows : List Subscription)
    → Below subscription_key n rows
    → find (has_key subscription_key s.id) rows ≡ some s
    → put subscription_key s rows ≡ rows
put_stored s n [] b e = refl
put_stored s n (t ∷ rows) b e =
    ground (arith, put_stored s t.id rows b.1, put_absent subscription_key s t.id rows b.1)

worded :
    (row : Subscription) (e d : ℕ)
    → row.expires_at ≡ some e
    → (text : Text) × (text_for row d ≡ ok text)
unfolding text_for warning_text
worded row e d dated = elim (Result-cases (text_for row d)) [
  | inl found ↦ found
  | inr (x, raised) ↦
      let (date, written) = format_date_ru_total e in
      absurd (ground (arith, dated, written, raised))
]

-- What a step that works on the row `s` does: it returns, and leaves the row with another mark, or the
-- same.
abbrev pub Marked : Subscription → World → Result Exception (Unit {0}) × World → Type 0
Marked s w r =
    (r.0 ≡ ok tt)
    × ((s' : Subscription) × (unmarked s' ≡ unmarked s)
        × (r.1.database ≡ record w.database {
          subscriptions = put subscription_key s' w.database.subscriptions;
        }))

module _ (bot : Bot) (d e n : ℕ) (s : Subscription) (w : World)
    (below : Below subscription_key n w.database.subscriptions)
    (stored : find (has_key subscription_key s.id) w.database.subscriptions ≡ some s)
    (dated : s.expires_at ≡ some e) where
  unchanged :
      record w.database { subscriptions = put subscription_key s w.database.subscriptions }
      ≡ w.database
  unchanged =
      ap (λ (l : List Subscription). record w.database { subscriptions = l })
        (put_stored s n w.database.subscriptions below stored)

  deliver-Marked : (user : Option User) → Marked s w (deliver bot s d user w)
  unfolding deliver record_warning
  deliver-Marked none = (refl, (s, refl, sym unchanged))
  deliver-Marked (some user) =
      let (text, wording) = worded s e d dated in
      elim (Bool-cases (bot.accepts w.calls (reminder user text))) [
        | inl y ↦
            let mark = set_last_warning_lem s (some d) w.database stored in
            (
              ground (arith, wording, y, mark),
              (with_mark d s, refl, ground (arith, wording, y, mark)),
            )
        | inr miss ↦ (
          ground (arith, wording, miss),
          (s, refl, ground (arith, wording, miss) ∙ sym unchanged),
        )
      ]

  remind-Marked : Marked s w (remind bot d (some s) w)
  unfolding remind Users.get_by_id
  remind-Marked = elim (Bool-cases (already_warned d s.last_warning_days_left)) [
    | inl y ↦ rw y (refl, (s, refl, sym unchanged))
    | inr miss ↦ rw miss (deliver-Marked (find (λ u. u.id == s.user_id) w.database.users))
  ]

-- The step for a listed row.
module _ (bot : Bot) (now e n : ℕ) (s : Subscription) (w : World)
    (below : Below subscription_key n w.database.subscriptions)
    (stored : find (has_key subscription_key s.id) w.database.subscriptions ≡ some s)
    (live : is_live s ≡ true) (dated : s.expires_at ≡ some e)
    (near : e ≤ now + warning_window_days * microseconds_per_day) where
  warn_one-Marked :
      (r : Subscription) (w1 : World)
      → begin_expiring s w ≡ (ok (some r), w1)
      → Marked r w1 (remind bot (days_remaining now e) (some r) w1)
      → Marked r w1 (warn_one bot now s w)
  unfolding warn_one warn_with
  warn_one-Marked r w1 begun m =
      let (low, high) =
        days_remaining_window now now e warning_window_days (omega arith) (omega arith) near in
      let (r', (s', same, left)) = m in
      (
        ground (arith, dated, low, high, begun, r'),
        (s', same, ground (arith, dated, low, high, begun) ∙ left),
      )

  pub warn_one-as_expiring : Marked (as_expiring s) w (warn_one bot now s w)
  warn_one-as_expiring = elim (Bool-cases (status_eq s.status active)) [
    | inl a ↦
        let w1 = with_row (as_expiring s) w in
        let stored1 =
          find-put_self subscription_key (as_expiring s) s w.database.subscriptions stored in
        let (r, (s', same, left)) =
          warn_one-Marked (as_expiring s) w1 (begin_expiring_active s w stored (ground arith)) (
            remind-Marked bot (days_remaining now e) e n (as_expiring s) w1
              (put-Below subscription_key (as_expiring s) n w.database.subscriptions below) stored1
              dated) in
        (
          r,
          (
            s',
            same,
            left
                ∙ ap (λ (l : List Subscription). record w.database { subscriptions = l })
                    (put-put (as_expiring s) s' w.database.subscriptions
                      (ap (λ x. x.id) (sym same))),
          ),
        )
    | inr b ↦
        let already : s.status ≡ expiring = ground arith in
        let is_s : as_expiring s ≡ s = ap (λ st. record s { status = st }) (sym already) in
        subst (λ r. Marked r w (warn_one bot now s w)) (sym is_s)
          (warn_one-Marked s w (begin_expiring_already s w already)
            (remind-Marked bot (days_remaining now e) e n s w below stored dated))
  ]
