-- ===== src/Jobs/AutoKick/Outcome.antt =====
-- How `_kick_one` of app/jobs/auto_kick.py ends, for a row that may have changed since the job read
-- it.
use telegram_subscription_ma.Base.{
  ℕ, ◌≡◌, ◌≢◌, ◌<◌, refl, sym, subst, Bool, true, false, Bool-cases, Option-cases, inl, inr, Option,
  none, some, arith, find, All, ◌==◌,
}
use telegram_subscription_ma.Base.Int.{ℤ}
use telegram_subscription_ma.Base.Text.{Text}
use telegram_subscription_ma.Base.Rows.{has_key, find-key, find-All, put-All}
use telegram_subscription_ma.Base.Sorted.{In}
use telegram_subscription_ma.Db.Latest.{put-In, get_active_or_expiring_for_user_latest}
use telegram_subscription_ma.Base.Action.{ok, err}
use telegram_subscription_ma.Db.Models.{
  SubscriptionStatus, active, expiring, expired, kicked, status_eq, User, Subscription, Database,
}
use telegram_subscription_ma.Db.Exceptions.{invalid_transition}
use telegram_subscription_ma.Db.Users
use telegram_subscription_ma.Db.Subscriptions
use telegram_subscription_ma.Db.Subscriptions.{is_live, live_rows, later_expiry}
use telegram_subscription_ma.Db.Invariant.{user_key, subscription_key, is_dated}
use telegram_subscription_ma.Domain.Subscription.{can_transition}
use telegram_subscription_ma.Telegram.{Bot, Settings, World, Program, truthy}
use telegram_subscription_ma.Jobs.AutoKick.{
  advance_to_kicked, is_protected_member, is_protection, ban_and_unban, unless_protected,
  remove_from, remove_from_channel, find_other_live_subscription, send_notice,
  unless_live_elsewhere, close_access, after_kick, skip_invalid_transition, try_advance, kick_one,
}
use telegram_subscription_ma.Jobs.AutoKick.Transitions.{with_status, with_row, advance_lem}

-- It returns, and leaves the database as it was.
abbrev pub IsQuiet : Program (Unit {0}) → Type 0
IsQuiet m = (w : World) → ((m w).0 ≡ ok tt) × ((m w).1.database ≡ w.database)

module _ (settings : Settings) (bot : Bot) where
  ban_and_unban-IsQuiet : (channel : Text) (t : ℤ) → IsQuiet (ban_and_unban bot channel t)
  unfolding ban_and_unban
  ban_and_unban-IsQuiet channel t w = ground arith

  unless_protected-IsQuiet :
      (channel : Text) (t : ℤ) (b : Bool) → IsQuiet (unless_protected settings bot channel t b)
  unfolding unless_protected
  unless_protected-IsQuiet channel t true w = (refl, refl)
  unless_protected-IsQuiet channel t false w = elim (Bool-cases settings.dry_run_kick) [
    | inl dry ↦ rw dry (refl, refl)
    | inr real ↦ rw real (ban_and_unban-IsQuiet channel t w)
  ]

  remove_from-IsQuiet : (t : ℤ) (c : Option Text) → IsQuiet (remove_from settings bot t c)
  unfolding remove_from is_protected_member
  remove_from-IsQuiet t none w = (refl, refl)
  remove_from-IsQuiet t (some channel) w =
      unless_protected-IsQuiet channel t (is_protection (bot.membership w.calls channel t)) _

  remove_from_channel-IsQuiet : (t : ℤ) → IsQuiet (remove_from_channel settings bot t)
  unfolding remove_from_channel
  remove_from_channel-IsQuiet t = remove_from-IsQuiet t (truthy settings.channel_id)

  send_notice-IsQuiet : (t : ℤ) → IsQuiet (send_notice settings bot t)
  unfolding send_notice
  send_notice-IsQuiet t w = ground arith

  unless_live_elsewhere-IsQuiet :
      (u : User) (other : Option Subscription)
      → IsQuiet (unless_live_elsewhere settings bot u other)
  unfolding unless_live_elsewhere
  unless_live_elsewhere-IsQuiet u (some s) w = (refl, refl)
  unless_live_elsewhere-IsQuiet u none w = ground (
    arith,
    remove_from_channel-IsQuiet u.telegram_id w,
    send_notice-IsQuiet u.telegram_id (remove_from_channel settings bot u.telegram_id w).1,
  )

  close_access-IsQuiet : (now : ℕ) (u : Option User) → IsQuiet (close_access settings bot now u)
  unfolding close_access find_other_live_subscription Subscriptions.get_active_or_expiring_for_user
  close_access-IsQuiet now none w = (refl, refl)
  close_access-IsQuiet now (some u) w = unless_live_elsewhere-IsQuiet u _ w

  pub after_kick-IsQuiet :
      (now : ℕ) (row : Option Subscription) → IsQuiet (after_kick settings bot now row)
  unfolding after_kick Users.get_by_id
  after_kick-IsQuiet now none w = (refl, refl)
  after_kick-IsQuiet now (some s) w = close_access-IsQuiet now _ w

-- A step of the walk that the row's status does not allow any more.
advance_stale :
    (listed s : Subscription) (db : Database)
    → find (has_key subscription_key listed.id) db.subscriptions ≡ some s
    → is_live listed ≡ true
    → s.status ≢ listed.status
    → (from to : SubscriptionStatus) × (advance_to_kicked listed.id listed.status db
        ≡ (err (invalid_transition from to), db))
unfolding advance_to_kicked Subscriptions.update_status can_transition
advance_stale listed s db found live moved = elim (Bool-cases (status_eq listed.status active)) [
  | inl a ↦ (s.status, expiring, ground arith)
  | inr n ↦ (s.status, expired, ground arith)
]

abbrev in_database : Database → World → World
in_database db w = record w { database = db }

try_advance_lem :
    (listed s : Subscription) (w : World)
    → find (has_key subscription_key s.id) w.database.subscriptions ≡ some s
    → is_live s ≡ true
    → s.id ≡ listed.id
    → s.status ≡ listed.status
    → try_advance listed w ≡ (
      ok (some (with_status kicked s)),
      in_database (with_row (with_status kicked s) w.database) w,
    )
unfolding try_advance
try_advance_lem listed s w found live same unmoved =
    ground (arith, advance_lem s w.database found live, same, unmoved)

module _ (settings : Settings) (bot : Bot) (now : ℕ) (listed s : Subscription) (w : World)
    (found : find (has_key subscription_key listed.id) w.database.subscriptions ≡ some s)
    (live : is_live listed ≡ true) where
  same : s.id ≡ listed.id
  same = find-key subscription_key listed.id s w.database.subscriptions found

  stored : find (has_key subscription_key s.id) w.database.subscriptions ≡ some s
  stored =
      subst (λ k. find (has_key subscription_key k) w.database.subscriptions ≡ some s) (sym same)
        found

  -- A row that the job read as live and whose status is still the one it read becomes KICKED,
  -- whatever its expiry is by then; nothing else in the database changes, and nothing is raised,
  -- however Telegram answers.
  pub kick_one_current :
      s.status ≡ listed.status
      → let (result, w') = kick_one settings bot now listed w in
        (result ≡ ok tt) × (w'.database ≡ with_row (with_status kicked s) w.database)
  unfolding kick_one
  kick_one_current unmoved =
      let w1 = in_database (with_row (with_status kicked s) w.database) w in
      ground (
        arith,
        try_advance_lem listed s w stored (ground arith) same unmoved,
        after_kick-IsQuiet settings bot now (some (with_status kicked s)) w1,
      )

  -- A row that the job read as live and whose status has changed since is left alone: nothing is written, nobody
  -- is removed or told, and nothing is raised.
  pub kick_one_stale : s.status ≢ listed.status → kick_one settings bot now listed w ≡ (ok tt, w)
  unfolding kick_one try_advance skip_invalid_transition after_kick
  kick_one_stale moved = ground (arith, advance_stale listed s w.database found live moved)

  -- The dated table with the row KICKED, as the second query of the handler finds it.
  kicked_dated :
      All (λ z. is_dated z ≡ true) w.database.subscriptions
      → s.status ≡ listed.status
      → All (λ z. is_dated z ≡ true) (with_row (with_status kicked s) w.database).subscriptions
  kicked_dated dated unmoved =
      let d =
        find-All subscription_key (λ z. is_dated z ≡ true) listed.id s w.database.subscriptions
          dated found in
      put-All subscription_key (λ z. is_dated z ≡ true) (with_status kicked s)
        w.database.subscriptions (ground arith) dated

  -- In a table where exactly the rows that are not pending have an expiry, the user of a row that is kicked, who has another live
  -- subscription that is paid into the future, loses the lapsed row, but is neither looked up in the
  -- channel, nor removed, nor told.
  pub kick_one_spares :
      s.status ≡ listed.status
      → All (λ z. is_dated z ≡ true) w.database.subscriptions
      → (r : Subscription) (b : ℕ) → In r w.database.subscriptions
      → r.id ≢ s.id
      → r.user_id ≡ s.user_id
      → is_live r ≡ true
      → r.expires_at ≡ some b
      → now < b
      → kick_one settings bot now listed w
        ≡ (ok tt, in_database (with_row (with_status kicked s) w.database) w)
  unfolding kick_one after_kick close_access unless_live_elsewhere find_other_live_subscription
      Users.get_by_id
  kick_one_spares unmoved dated r b member other owner live' expiry future =
      let db1 = with_row (with_status kicked s) w.database in
      let (x, a, e, ux, lx, ea, le) =
        get_active_or_expiring_for_user_latest db1 (kicked_dated dated unmoved) s.user_id r b
          (put-In subscription_key r (with_status kicked s) w.database.subscriptions member other)
          owner live' expiry in
      let step = try_advance_lem listed s w stored (ground arith) same unmoved in
      elim (Option-cases (find (λ u. u.id == s.user_id) w.database.users)) [
        | inl absent ↦ ground (arith, step, absent)
        | inr (u, present) ↦
            let same_user = find-key user_key s.user_id u w.database.users present in
            let e' =
              subst (λ i. Subscriptions.get_active_or_expiring_for_user i db1 ≡ (ok (some x), db1))
                (sym same_user) e in
            ground (arith, step, present, e', ea)
      ]
