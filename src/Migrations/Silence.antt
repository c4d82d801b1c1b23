-- ===== src/Migrations/Silence.antt =====
-- The reminder job right after the migration.
use telegram_subscription_ma.Base.{
  ℕ, ◌≡◌, refl, sym, ap, ◌∙◌, subst, true, Bool-cases, inl, inr, some, List, [], ◌∷◌, map, arith,
  All, where_rows,
}
use telegram_subscription_ma.Base.Action.{ok}
use telegram_subscription_ma.Db.Models.{expiring, status_eq, Subscription, Database}
use telegram_subscription_ma.Db.Subscriptions.{list_expiring_within}
use telegram_subscription_ma.Domain.Time.{days_remaining}
use telegram_subscription_ma.Telegram.{Bot, World}
use telegram_subscription_ma.Jobs.ExpirationWarnings.{warn_one, warn_each, run_expiration_warnings}
use telegram_subscription_ma.Jobs.ExpirationWarnings.Reminders.{marked_skipped}
use telegram_subscription_ma.Jobs.ExpirationWarnings.Runs.Sweep.{is_due, due_expiry}
use telegram_subscription_ma.Migrations.{greatest_days, backfill_row, upgrade}

module _ (bot : Bot) (now : ℕ) (w : World) where
  IsSkipped : Subscription → Type 0
  IsSkipped s = warn_one bot now s w ≡ (ok tt, w)

  backfilled-IsSkipped :
      (s : Subscription)
      → is_due now s ≡ true
      → s.status ≡ expiring
      → IsSkipped (backfill_row now s)
  unfolding IsSkipped days_remaining
  backfilled-IsSkipped s due e' =
      let (e, dated, near) = due_expiry now s due in
      let s' : Subscription = record s {
        last_warning_days_left = some (greatest_days now s.expires_at);
      } in
      let written : backfill_row now s ≡ s' = ground (arith, e') in
      subst IsSkipped (sym written) (
        marked_skipped bot now e (days_remaining now e) s' w e' dated (rw dated refl) (omega arith))

  is_due-backfill_row : (s : Subscription) → is_due now (backfill_row now s) ≡ is_due now s
  is_due-backfill_row s = elim (Bool-cases (status_eq s.status expiring)) [
    | inl a ↦
        let s' : Subscription = record s {
          last_warning_days_left = some (greatest_days now s.expires_at);
        } in
        let written : backfill_row now s ≡ s' = ground (arith, a) in ap (is_due now) written
    | inr b ↦ let kept : backfill_row now s ≡ s = ground (arith, b) in ap (is_due now) kept
  ]

  warn_each-skipped :
      (listed : List Subscription) → All IsSkipped listed → warn_each bot now listed w ≡ (ok tt, w)
  unfolding warn_each IsSkipped
  warn_each-skipped [] h = refl
  warn_each-skipped (s ∷ listed) h = ground (arith, h.0, warn_each-skipped listed h.1)

  listed-IsSkipped :
      (rows : List Subscription)
      → All (λ s. is_due now s ≡ true → s.status ≡ expiring) rows
      → All IsSkipped (where_rows (is_due now) (map (backfill_row now) rows))
  listed-IsSkipped [] h = tt
  listed-IsSkipped (s ∷ rows) h =
      let rest = listed-IsSkipped rows h.1 in
      let same = is_due-backfill_row s in
      elim (Bool-cases (is_due now s)) [
        | inl due ↦ rw (same, due) (backfilled-IsSkipped s due (h.0 due), rest)
        | inr idle ↦ rw (same, idle) rest
      ]

-- Where every row that is due has been warned by the job of before, that is, is EXPIRING, a run of the
-- job at the moment of the migration finds nobody to remind: it returns, calls nothing and changes
-- nothing.
pub upgrade-run_expiration_warnings :
    (bot : Bot) (now : ℕ) (db : Database) (w : World)
    → All (λ s. is_due now s ≡ true → s.status ≡ expiring) db.subscriptions
    → w.database ≡ upgrade now db
    → run_expiration_warnings bot now w ≡ (ok tt, w)
unfolding run_expiration_warnings list_expiring_within
upgrade-run_expiration_warnings bot now db w h migrated =
    let rows : w.database.subscriptions ≡ map (backfill_row now) db.subscriptions =
      ap (λ d. d.subscriptions) migrated in
    ap (λ l. warn_each bot now (where_rows (is_due now) l) w) rows
    ∙ warn_each-skipped bot now w
        (where_rows (is_due now) (map (backfill_row now) db.subscriptions))
        (listed-IsSkipped bot now w db.subscriptions h)
