-- ===== src/Jobs/AutoKick/Sweep.antt =====
-- A whole run of app/jobs/auto_kick.py that nothing else interrupts.
use telegram_subscription_ma.Base.{
  ℕ, ◌≡◌, ◌≢◌, refl, sym, ap, ◌∙◌, subst, Bool, true, Bool-cases, inl, inr, some, List, [], ◌∷◌,
  map, arith, find, where_rows, All, if◌then◌else◌, ltb, ◌&&◌,
}
use telegram_subscription_ma.Base.Rows.{Below, put, has_key, find-put_ne}
use telegram_subscription_ma.Base.Batch.{
  Distinct, All-intro, where_rows-Distinct, put_each, put_each-where_rows,
}
use telegram_subscription_ma.Base.Sorted.{In-where_rows, find-In}
use telegram_subscription_ma.Base.Action.{ok}
use telegram_subscription_ma.Db.Models.{kicked, Subscription, Database}
use telegram_subscription_ma.Db.Subscriptions.{is_live, expires_in, list_expired}
use telegram_subscription_ma.Db.Invariant.{subscription_key}
use telegram_subscription_ma.Telegram.{Bot, Settings, World}
use telegram_subscription_ma.Jobs.AutoKick.{kick_one, kick_each, run_auto_kick}
use telegram_subscription_ma.Jobs.AutoKick.Transitions.{with_status}
use telegram_subscription_ma.Jobs.AutoKick.Outcome.{kick_one_current}

-- Live, and run out before `now`.
abbrev pub has_lapsed : ℕ → Subscription → Bool
has_lapsed now s = is_live s && expires_in (λ e. ltb e now) s

abbrev pub swept : ℕ → Subscription → Subscription
swept now s = if has_lapsed now s then with_status kicked s else s

abbrev pub sweep : ℕ → Database → Database
sweep now db = record db { subscriptions = map (swept now) db.subscriptions }

abbrev put_kicked : List Subscription → List Subscription → List Subscription
put_kicked = put_each subscription_key (with_status kicked) (λ s. refl)

abbrev IsStored : List Subscription → Subscription → Type 0
IsStored rows s = (find (has_key subscription_key s.id) rows ≡ some s) × (is_live s ≡ true)

still-IsStored :
    (s : Subscription) (rows listed : List Subscription)
    → All (λ t. t.id ≢ s.id) listed
    → All (IsStored rows) listed
    → All (IsStored (put subscription_key (with_status kicked s) rows)) listed
still-IsStored s rows [] other stored = tt
still-IsStored s rows (t ∷ listed) other stored = (
  (find-put_ne subscription_key (with_status kicked s) t.id rows other.0 ∙ stored.0.0, stored.0.1),
  still-IsStored s rows listed other.1 stored.1,
)

module _ (settings : Settings) (bot : Bot) (now : ℕ) where
  kick_each_lem :
      (listed : List Subscription) (w : World)
      → Distinct subscription_key listed
      → All (IsStored w.database.subscriptions) listed
      → ((kick_each settings bot now listed w).0 ≡ ok tt)
        × ((kick_each settings bot now listed w).1.database
            ≡ record w.database { subscriptions = put_kicked listed w.database.subscriptions })
  unfolding kick_each
  kick_each_lem [] w distinct stored = (refl, refl)
  kick_each_lem (s ∷ rest) w distinct stored =
      let w1 = (kick_one settings bot now s w).1 in
      let (r, d) = kick_one_current settings bot now s s w stored.0.0 stored.0.1 refl in
      let (r', d') = kick_each_lem rest w1 distinct.1 (
        subst (λ db. All (IsStored db.subscriptions) rest) (sym d)
          (still-IsStored s w.database.subscriptions rest distinct.0 stored.1)) in
      (
        ground (arith, r, r'),
        ground (arith, r)
            ∙ d'
            ∙ ap (λ (db : Database). record db { subscriptions = put_kicked rest db.subscriptions })
                d,
      )

  has_lapsed-live : (s : Subscription) → has_lapsed now s ≡ true → is_live s ≡ true
  has_lapsed-live s lapsed = ground arith

  -- A run of the job on a table that is keyed, which nothing interrupts, returns, however Telegram
  -- answers. Each row that was live and had run out is KICKED afterwards, and nothing else in the
  -- database is changed.
  pub run_auto_kick_lem :
      (n : ℕ) (w : World)
      → Below subscription_key n w.database.subscriptions
      → ((run_auto_kick settings bot now w).0 ≡ ok tt)
        × ((run_auto_kick settings bot now w).1.database ≡ sweep now w.database)
  unfolding run_auto_kick list_expired
  run_auto_kick_lem n w below =
      let rows = w.database.subscriptions in
      let q = has_lapsed now in
      let (r, d) =
        kick_each_lem (where_rows q rows) w (where_rows-Distinct subscription_key q n rows below) (
          All-intro (IsStored rows) (where_rows q rows) λ s m.
            let (member, hit) = In-where_rows q s rows m in
            (find-In subscription_key n s rows below member, has_lapsed-live s hit)) in
      (
        r,
        d
            ∙ ap (λ (l : List Subscription). record w.database { subscriptions = l })
                (put_each-where_rows subscription_key (with_status kicked) (λ s. refl) q n rows
                  below),
      )

nobody_lapsed :
    (now : ℕ) (rows : List Subscription) → where_rows (has_lapsed now) (map (swept now) rows) ≡ []
nobody_lapsed now [] = refl
nobody_lapsed now (s ∷ rows) = elim (Bool-cases (has_lapsed now s)) [
  | inl lapsed ↦ rw lapsed (nobody_lapsed now rows)
  | inr not_yet ↦ rw not_yet (rw not_yet (nobody_lapsed now rows))
]

-- A second run after it, at the same moment, finds nobody to kick: it calls nothing and changes
-- nothing.
pub run_auto_kick_again :
    (settings : Settings) (bot : Bot) (now n : ℕ) (w : World)
    → Below subscription_key n w.database.subscriptions
    → (next_settings : Settings) (next_bot : Bot)
    → let w' = (run_auto_kick settings bot now w).1 in
      run_auto_kick next_settings next_bot now w' ≡ (ok tt, w')
unfolding run_auto_kick list_expired kick_each
run_auto_kick_again settings bot now n w below ns nb =
    let w' = (run_auto_kick settings bot now w).1 in
    let (r, d) = run_auto_kick_lem settings bot now n w below in
    let none_left : where_rows (has_lapsed now) w'.database.subscriptions ≡ [] =
      ap (λ db. where_rows (has_lapsed now) db.subscriptions) d
      ∙ nobody_lapsed now w.database.subscriptions in
    ap (λ rows. kick_each ns nb now rows w') none_left
