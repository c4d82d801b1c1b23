-- ===== src/Jobs/ExpirationWarnings/Runs/Sweep.antt =====
-- A whole run of app/jobs/expiration_warnings.py that nothing else interrupts.
use telegram_subscription_ma.Base.{
  ℕ, ◌+◌, ◌*◌, ◌≡◌, ◌≢◌, ◌≤◌, refl, sym, ap, ◌∙◌, subst, Bool, true, Bool-cases, Option-cases, inl,
  inr, some, List, [], ◌∷◌, map, arith, find, where_rows, All, if◌then◌else◌, leb, ◌&&◌,
}
use telegram_subscription_ma.Base.Rows.{Below, put, put-Below, has_key, find-put_ne}
use telegram_subscription_ma.Base.Batch.{
  Distinct, All-intro, where_rows-Distinct, put_each, put_each-where_rows,
}
use telegram_subscription_ma.Base.Sorted.{In-where_rows, find-In}
use telegram_subscription_ma.Base.Action.{ok}
use telegram_subscription_ma.Db.Models.{Subscription}
use telegram_subscription_ma.Db.Subscriptions.{is_live, expires_in, list_expiring_within}
use telegram_subscription_ma.Db.Invariant.{subscription_key}
use telegram_subscription_ma.Domain.Calendar.{microseconds_per_day}
use telegram_subscription_ma.Telegram.{Bot, World}
use telegram_subscription_ma.Jobs.ExpirationWarnings.{
  warning_window_days, warn_one, warn_each, run_expiration_warnings,
}
use telegram_subscription_ma.Jobs.ExpirationWarnings.Reminders.{as_expiring}
use telegram_subscription_ma.Jobs.ExpirationWarnings.Runs.{unmarked, warn_one-as_expiring}

-- Live, and running out within the three days after `now`.
abbrev pub is_due : ℕ → Subscription → Bool
is_due now s =
    is_live s
    && expires_in (λ e. leb now e && leb e (now + warning_window_days * microseconds_per_day)) s

abbrev warned : Subscription → Subscription
warned s = unmarked (as_expiring s)

abbrev pub warned_if_due : ℕ → Subscription → Subscription
warned_if_due now s = if is_due now s then warned s else s

abbrev put_warned : List Subscription → List Subscription → List Subscription
put_warned = put_each subscription_key warned (λ s. refl)

map-put :
    (s : Subscription) (rows : List Subscription)
    → map unmarked (put subscription_key s rows)
      ≡ put subscription_key (unmarked s) (map unmarked rows)
map-put s [] = refl
map-put s (t ∷ rows) = ground (arith, map-put s rows)

abbrev IsListed : ℕ → List Subscription → Subscription → Type 0
IsListed now rows s =
    (find (has_key subscription_key s.id) rows ≡ some s)
    × (is_live s ≡ true)
    × ((e : ℕ) × (s.expires_at ≡ some e) × (e ≤ now + warning_window_days * microseconds_per_day))

still-IsListed :
    (now : ℕ) (s s' : Subscription) (rows listed : List Subscription)
    → s'.id ≡ s.id
    → All (λ t. t.id ≢ s.id) listed
    → All (IsListed now rows) listed
    → All (IsListed now (put subscription_key s' rows)) listed
still-IsListed now s s' rows [] same other h = tt
still-IsListed now s s' rows (t ∷ listed) same other h =
    let (stored, live, due) = h.0 in
    (
      (find-put_ne subscription_key s' t.id rows (λ e. other.0 (e ∙ same)) ∙ stored, live, due),
      still-IsListed now s s' rows listed same other.1 h.1,
    )

module _ (bot : Bot) (now n : ℕ) where
  warn_each_lem :
      (listed : List Subscription) (w : World)
      → Below subscription_key n w.database.subscriptions
      → Distinct subscription_key listed
      → All (IsListed now w.database.subscriptions) listed
      → let (r, w') = warn_each bot now listed w in
        (r ≡ ok tt)
        × (w'.database ≡ record w.database { subscriptions = w'.database.subscriptions })
        × (map unmarked w'.database.subscriptions
            ≡ put_warned listed (map unmarked w.database.subscriptions))
  unfolding warn_each
  warn_each_lem [] w below distinct h = (refl, refl, refl)
  warn_each_lem (s ∷ rest) w below distinct h =
      let rows = w.database.subscriptions in
      let w1 = (warn_one bot now s w).1 in
      let (stored, live, (e, dated, near)) = h.0 in
      let (r, (s', same, d)) = warn_one-as_expiring bot now e n s w below stored live dated near in
      let written : w1.database.subscriptions ≡ put subscription_key s' rows =
        ap (λ db. db.subscriptions) d in
      let (r', d', swept) =
        warn_each_lem rest w1
          (subst (Below subscription_key n) (sym written)
            (put-Below subscription_key s' n rows below))
          distinct.1
          (subst (λ l. All (IsListed now l) rest) (sym written)
            (still-IsListed now s s' rows rest (ap (λ x. x.id) same) distinct.0 h.1)) in
      let first : map unmarked w1.database.subscriptions
          ≡ put subscription_key (warned s) (map unmarked rows) =
        ap (map unmarked) written
        ∙ map-put s' rows
        ∙ ap (λ x. put subscription_key x (map unmarked rows)) same in
      (
        ground (arith, r, r'),
        ground (arith, r, d', d),
        ground (arith, r) ∙ swept ∙ ap (put_warned rest) first,
      )

-- A selection by a test that does not read the mark.
where_rows-unmarked :
    (now : ℕ) (rows : List Subscription)
    → where_rows (is_due now) (map unmarked rows) ≡ map unmarked (where_rows (is_due now) rows)
where_rows-unmarked now [] = refl
where_rows-unmarked now (s ∷ rows) = elim (Bool-cases (is_due now s)) [
  | inl due ↦ rw due (ap (λ l. unmarked s ∷ l) (where_rows-unmarked now rows))
  | inr idle ↦ rw idle (where_rows-unmarked now rows)
]

put_warned-unmarked :
    (listed rows : List Subscription)
    → put_warned (map unmarked listed) rows ≡ put_warned listed rows
put_warned-unmarked [] rows = refl
put_warned-unmarked (s ∷ listed) rows =
    put_warned-unmarked listed (put subscription_key (warned s) rows)

Below-unmarked :
    (n : ℕ) (rows : List Subscription)
    → Below subscription_key n rows
    → Below subscription_key n (map unmarked rows)
Below-unmarked n [] b = tt
Below-unmarked n (s ∷ rows) b = (b.0, Below-unmarked s.id rows b.1)

pub due_expiry :
    (now : ℕ) (s : Subscription)
    → is_due now s ≡ true
    → (e : ℕ) × (s.expires_at ≡ some e) × (e ≤ now + warning_window_days * microseconds_per_day)
due_expiry now s due = elim (Option-cases s.expires_at) [
  | inl undated ↦ absurd (ground arith)
  | inr (e, dated) ↦ (e, dated, ground arith)
]

-- A run of the job on a table that is keyed, which nothing interrupts, returns, whoever is missing and
-- however Telegram answers. Each row that was live and runs out within three days is EXPIRING
-- afterwards; but for the marks of the last reminders, nothing else in the database is changed.
pub run_expiration_warnings_lem :
    (bot : Bot) (now n : ℕ) (w : World)
    → Below subscription_key n w.database.subscriptions
    → let (r, w') = run_expiration_warnings bot now w in
      (r ≡ ok tt)
      × (w'.database ≡ record w.database { subscriptions = w'.database.subscriptions })
      × (map unmarked w'.database.subscriptions
          ≡ map (warned_if_due now) (map unmarked w.database.subscriptions))
unfolding run_expiration_warnings list_expiring_within
run_expiration_warnings_lem bot now n w below =
    let rows = w.database.subscriptions in
    let listed = where_rows (is_due now) rows in
    let (r, d, swept) =
      warn_each_lem bot now n listed w below
        (where_rows-Distinct subscription_key (is_due now) n rows below)
        (All-intro (IsListed now rows) listed λ s m.
          let (member, due) = In-where_rows (is_due now) s rows m in
          (
            find-In subscription_key n s rows below member,
            ground (arith, due),
            due_expiry now s due,
          )) in
    let plain = map unmarked rows in
    (
      r,
      d,
      swept
          ∙ sym (put_warned-unmarked listed plain)
          ∙ ap (λ l. put_warned l plain) (sym (where_rows-unmarked now rows))
          ∙ put_each-where_rows subscription_key warned (λ s. refl) (is_due now) n plain
              (Below-unmarked n rows below),
    )
