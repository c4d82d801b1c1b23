-- ===== src/Db/Subscriptions.antt =====
-- `SubscriptionRepository` of app/db/repositories.py, as coroutines over the database. A datetime
-- `now` is the caller's moment. ORDER BY … DESC puts NULL first, as PostgreSQL does; rows that tie
-- keep the table's order, newest first.
use telegram_subscription_ma.Base.{
  ℕ, ◌≡◌, ◌+◌, ◌*◌, ◌==◌, leb, ltb, Bool, true, false, ◌&&◌, ◌||◌, Option, none, some, List, [],
  ◌∷◌, if◌then◌else◌, where_rows, find, update_rows, first, order_by, length, ◌++◌,
}
use telegram_subscription_ma.Base.Action.{ok, pure, raise, gets, lift, modify, ◌>>=◌, ◌>>◌}
use telegram_subscription_ma.Db.Models.{
  SubscriptionStatus, active, expiring, status_eq, Subscription, Database,
}
use telegram_subscription_ma.Db.Exceptions.{value_error, Query}
use telegram_subscription_ma.Domain.Calendar.{microseconds_per_day}
use telegram_subscription_ma.Domain.Subscription.{transition}

-- `Subscription.status.in_([ACTIVE, EXPIRING])`
abbrev pub is_live_status : SubscriptionStatus → Bool
is_live_status status = status_eq status active || status_eq status expiring

abbrev pub is_live : Subscription → Bool
is_live s = is_live_status s.status

-- `.order_by(Subscription.expires_at.desc())`
abbrev pub later_expiry : Subscription → Subscription → Bool
later_expiry s t = elim s.expires_at [
  | none ↦ true
  | some a ↦ elim t.expires_at [ none ↦ false | some b ↦ leb b a ]
]

-- With `for_update` the row stays locked for the rest of the transaction. That changes nothing that
-- the query reads; it keeps others from writing to the row (KeepsLocked).
unfoldable pub get_by_id : ℕ → Bool → Query (Option Subscription)
get_by_id subscription_id for_update =
    gets (λ db. find (λ s. s.id == subscription_id) db.subscriptions)

-- What other transactions may make of a database after `get_by_id` has read the row: where it is
-- locked, PostgreSQL makes whoever writes to it wait.
abbrev pub KeepsLocked : ℕ → Bool → Database → Database → Type 0
KeepsLocked subscription_id for_update db db' =
    for_update ≡ true
    → find (λ s. s.id == subscription_id) db'.subscriptions
      ≡ find (λ s. s.id == subscription_id) db.subscriptions

unfoldable pub get_active_for_user : ℕ → Query (Option Subscription)
get_active_for_user user_id = gets λ db. first (
    order_by (λ s t. leb t.created_at s.created_at)
      (where_rows (λ s. (s.user_id == user_id) && status_eq s.status active) db.subscriptions))

abbrev pub live_rows : ℕ → Database → List Subscription
live_rows user_id db = where_rows (λ s. (s.user_id == user_id) && is_live s) db.subscriptions

unfoldable pub get_active_or_expiring_for_user : ℕ → Query (Option Subscription)
get_active_or_expiring_for_user user_id =
    gets λ db. first (order_by later_expiry (live_rows user_id db))

-- `SubscriptionRepository.create`
unfoldable pub create : ℕ → ℕ → Option ℕ → SubscriptionStatus → Query Subscription
create now user_id expires_at status db =
    let subscription : Subscription = record {
      id = db.next_subscription_id;
      user_id = user_id;
      status = status;
      expires_at = expires_at;
      last_warning_days_left = none;
      created_at = now;
    } in
    (
      ok subscription,
      record db {
        subscriptions = subscription ∷ db.subscriptions;
        next_subscription_id = db.next_subscription_id + 1;
      },
    )

-- Flush a loaded object: UPDATE subscriptions … WHERE id = …
abbrev pub save : Subscription → Query Subscription
save s =
    (modify
      λ db. record db { subscriptions = update_rows (λ t. t.id == s.id) (λ _. s) db.subscriptions })
    >> pure s

abbrev pub with_expiry : Option ℕ → Subscription → Subscription
with_expiry none s = s
with_expiry (some e) s = record s { expires_at = some e }

unfoldable pub update_status : ℕ → SubscriptionStatus → Option ℕ → Query Subscription
unfolding get_by_id transition
update_status subscription_id new_status expires_at = do
  found ← get_by_id subscription_id false
  elim found [
    | none ↦ raise value_error
    | some s ↦ lift (transition s new_status) >>= λ moved. save (with_expiry expires_at moved)
  ]

unfoldable pub set_last_warning_days_left : ℕ → Option ℕ → Query Subscription
unfolding get_by_id
set_last_warning_days_left subscription_id days_left = do
  found ← get_by_id subscription_id false
  elim found [
    | none ↦ raise value_error
    | some s ↦ save (record s { last_warning_days_left = days_left })
  ]

-- A comparison with NULL selects no row.
abbrev pub expires_in : (ℕ → Bool) → Subscription → Bool
expires_in test s = elim s.expires_at [ none ↦ false | some e ↦ test e ]

unfoldable pub list_expiring_within : ℕ → ℕ → Query (List Subscription)
list_expiring_within now days =
    let threshold = now + days * microseconds_per_day in
    gets λ db.
      where_rows (λ s. is_live s && expires_in (λ e. leb now e && leb e threshold) s)
        db.subscriptions

unfoldable pub list_active_or_expiring : Query (List Subscription)
list_active_or_expiring =
    gets λ db. order_by (λ s t. leb s.id t.id) (where_rows is_live db.subscriptions)

unfoldable pub list_expired : ℕ → Query (List Subscription)
list_expired now =
    gets λ db. where_rows (λ s. is_live s && expires_in (λ e. ltb e now) s) db.subscriptions

-- `by_user.setdefault(user_id, []).append(subscription_id)`
unfoldable pub add_to_group : ℕ → ℕ → List (ℕ × List ℕ) → List (ℕ × List ℕ)
add_to_group user_id subscription_id [] = (user_id, subscription_id ∷ []) ∷ []
add_to_group user_id subscription_id ((u, ids) ∷ groups) =
    if u == user_id
    then (u, ids ++ subscription_id ∷ []) ∷ groups
    else (u, ids) ∷ add_to_group user_id subscription_id groups

unfoldable pub group_by_user : List (ℕ × List ℕ) → List Subscription → List (ℕ × List ℕ)
unfolding add_to_group
group_by_user by_user [] = by_user
group_by_user by_user (s ∷ rows) = group_by_user (add_to_group s.user_id s.id by_user) rows

unfoldable pub list_users_with_multiple_live_subscriptions : Query (List (ℕ × List ℕ))
unfolding group_by_user
list_users_with_multiple_live_subscriptions = gets λ db.
    where_rows (λ g. ltb 1 (length g.1)) (group_by_user [] (where_rows is_live db.subscriptions))
