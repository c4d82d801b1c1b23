-- ===== src/Jobs/AutoKick/Transitions.antt =====
-- What app/jobs/auto_kick.py does to the database.
use telegram_subscription_ma.Base.{
  ◌≡◌, refl, sym, subst, true, Bool-cases, inl, inr, none, some, arith, find,
}
use telegram_subscription_ma.Base.Rows.{put, has_key, find-put_self}
use telegram_subscription_ma.Base.Action.{ok, err}
use telegram_subscription_ma.Db.Models.{
  SubscriptionStatus, active, expiring, expired, kicked, status_eq, Subscription, Database,
}
use telegram_subscription_ma.Db.Exceptions.{invalid_transition}
use telegram_subscription_ma.Db.Subscriptions
use telegram_subscription_ma.Db.Subscriptions.{is_live, live_rows}
use telegram_subscription_ma.Db.Invariant.{subscription_key}
use telegram_subscription_ma.Db.Laws.{update_status_lem, put-put}
use telegram_subscription_ma.Domain.Subscription.{can_transition}
use telegram_subscription_ma.Jobs.AutoKick.{advance_to_kicked}

abbrev pub with_status : SubscriptionStatus → Subscription → Subscription
with_status status s = record s { status = status }

abbrev pub with_row : Subscription → Database → Database
with_row s db = record db { subscriptions = put subscription_key s db.subscriptions }

hop :
    (s : Subscription) (from to : SubscriptionStatus) (db : Database)
    → find (has_key subscription_key s.id) db.subscriptions ≡ some s
    → s.status ≡ from
    → can_transition from to ≡ true
    → Subscriptions.update_status s.id to none db
      ≡ (ok (with_status to s), with_row (with_status to s) db)
hop s from to db found e allowed =
    update_status_lem s to none db found (subst (λ st. can_transition st to ≡ true) (sym e) allowed)

advance_expiring :
    (s : Subscription) (db : Database)
    → find (has_key subscription_key s.id) db.subscriptions ≡ some s
    → s.status ≡ expiring
    → advance_to_kicked s.id expiring db
      ≡ (ok (with_status kicked s), with_row (with_status kicked s) db)
unfolding advance_to_kicked can_transition
advance_expiring s db found e =
    let s1 = with_status expired s in
    let found1 = find-put_self subscription_key s1 s db.subscriptions found in
    ground (
      arith,
      hop s expiring expired db found e refl,
      hop s1 expired kicked (with_row s1 db) found1 refl refl,
      put-put s1 (with_status kicked s) db.subscriptions refl,
    )

advance_active :
    (s : Subscription) (db : Database)
    → find (has_key subscription_key s.id) db.subscriptions ≡ some s
    → s.status ≡ active
    → advance_to_kicked s.id active db
      ≡ (ok (with_status kicked s), with_row (with_status kicked s) db)
unfolding advance_to_kicked can_transition
advance_active s db found e =
    let s1 = with_status expiring s in
    let found1 = find-put_self subscription_key s1 s db.subscriptions found in
    ground (
      arith,
      hop s active expiring db found e refl,
      advance_expiring s1 (with_row s1 db) found1 refl,
      put-put s1 (with_status kicked s) db.subscriptions refl,
    )

-- A live row is walked to KICKED by allowed transitions, whatever its expiry says, and no other row
-- changes.
pub advance_lem :
    (s : Subscription) (db : Database)
    → find (has_key subscription_key s.id) db.subscriptions ≡ some s
    → is_live s ≡ true
    → advance_to_kicked s.id s.status db
      ≡ (ok (with_status kicked s), with_row (with_status kicked s) db)
advance_lem s db found live = elim (Bool-cases (status_eq s.status active)) [
  | inl a ↦
      let e : s.status ≡ active = ground arith in
      subst
        (λ st.
          advance_to_kicked s.id st db
          ≡ (ok (with_status kicked s), with_row (with_status kicked s) db))
        (sym e) (advance_active s db found e)
  | inr a ↦
      let e : s.status ≡ expiring = ground arith in
      subst
        (λ st.
          advance_to_kicked s.id st db
          ≡ (ok (with_status kicked s), with_row (with_status kicked s) db))
        (sym e) (advance_expiring s db found e)
]

-- A row that is seen as EXPIRING and has been renewed since, before the job reaches it, is left
-- alone: the first hop is refused.
pub advance_renewed :
    (s : Subscription) (db : Database)
    → find (has_key subscription_key s.id) db.subscriptions ≡ some s
    → s.status ≡ active
    → advance_to_kicked s.id expiring db ≡ (err (invalid_transition active expired), db)
unfolding advance_to_kicked Subscriptions.update_status can_transition
advance_renewed s db found e = ground arith
