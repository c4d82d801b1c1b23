-- ===== src/Db/Preservation.antt =====
-- Which single writes of app/db/repositories.py keep a database valid.
pub mod LastQuestion
use telegram_subscription_ma.Base.{
  ℕ, ◌≡◌, refl, sym, ap, ◌∙◌, subst, Bool, true, false, Bool-cases, Option-cases, inl, inr, Option,
  none, some, List, [], ◌∷◌, arith, find, any_row, ◌&&◌, ◌==◌,
}
use mathlib.Core.Option.{some-injective}
use telegram_subscription_ma.Base.Int.{ℤ}
use telegram_subscription_ma.Base.Text.{Text}
use telegram_subscription_ma.Base.Rows.{
  Below, put, put_absent, has_key, find-key, find-All, put-Below, put-All, count-put,
}
use telegram_subscription_ma.Db.Models.{
  SubscriptionStatus, pending, expiring, expired, kicked, User, Subscription, Database,
}
use telegram_subscription_ma.Db.Users
use telegram_subscription_ma.Db.Users.{has_telegram_id, fits_integer}
use telegram_subscription_ma.Db.Subscriptions
use telegram_subscription_ma.Db.Subscriptions.{is_live}
use telegram_subscription_ma.Db.Payments
use telegram_subscription_ma.Db.Payments.{has_ref}
use telegram_subscription_ma.Db.Invariant.{
  IsValid, OneLive, TelegramUnique, is_dated, user_key, subscription_key,
}
use telegram_subscription_ma.Db.Laws.{
  get_or_create_lem, get_or_create_unfit, update_status_lem, set_last_warning_lem,
}
use telegram_subscription_ma.Domain.Subscription.{can_transition}

-- A row that is rewritten for its user, that does not become live by it, and is dated.
module _ (s s' : Subscription) (db : Database) (v : IsValid db)
    (found : find (has_key subscription_key s.id) db.subscriptions ≡ some s)
    (same_id : s'.id ≡ s.id) (same_user : s'.user_id ≡ s.user_id)
    (not_revived : is_live s ≡ false → is_live s' ≡ false) (dated : is_dated s' ≡ true) where
  put-OneLive : OneLive (record db { subscriptions = put subscription_key s' db.subscriptions })
  put-OneLive u =
      let q = λ (t : Subscription). (t.user_id == u) && is_live t in
      let count =
        count-put subscription_key q s' s db.next_subscription_id db.subscriptions
          v.subscriptions_keyed
          (subst (λ k. find (has_key subscription_key k) db.subscriptions ≡ some s) (sym same_id)
            found) in
      ground (arith, v.one_live u, count, same_user, not_revived)

  pub put-IsValid : IsValid (record db { subscriptions = put subscription_key s' db.subscriptions })
  put-IsValid = record {
    users_keyed = v.users_keyed;
    subscriptions_keyed =
        put-Below subscription_key s' db.next_subscription_id db.subscriptions
          v.subscriptions_keyed;
    payments_keyed = v.payments_keyed;
    telegram_unique = v.telegram_unique;
    refs_unique = v.refs_unique;
    one_live = put-OneLive;
    dated = put-All subscription_key (λ t. is_dated t ≡ true) s' db.subscriptions dated v.dated;
  }

-- `SubscriptionRepository.create` of a placeholder.
pub placeholder-IsValid :
    (now user_id : ℕ) (db : Database)
    → IsValid db
    → IsValid (Subscriptions.create now user_id none pending db).1
unfolding Subscriptions.create
placeholder-IsValid now user_id db v = record {
  users_keyed = v.users_keyed;
  subscriptions_keyed = (omega arith, v.subscriptions_keyed);
  payments_keyed = v.payments_keyed;
  telegram_unique = v.telegram_unique;
  refs_unique = v.refs_unique;
  one_live = λ u. ground (arith, v.one_live u);
  dated = (refl, v.dated);
}

pub payment-IsValid :
    (now subscription_id : ℕ) (provider provider_ref : Text) (amount : ℕ) (currency : Text)
    (db : Database)
    → IsValid db
    → IsValid (Payments.create now subscription_id provider provider_ref amount currency db).1
unfolding Payments.create
payment-IsValid now subscription_id provider provider_ref amount currency db v =
    elim (Bool-cases (any_row (has_ref provider provider_ref) db.payments)) [
      | inl dup ↦ rw dup v
      | inr fresh ↦ rw fresh (record {
        users_keyed = v.users_keyed;
        subscriptions_keyed = v.subscriptions_keyed;
        payments_keyed = (omega arith, v.payments_keyed);
        telegram_unique = v.telegram_unique;
        refs_unique = (fresh, v.refs_unique);
        one_live = v.one_live;
        dated = v.dated;
      })
    ]

pub get_or_create-IsValid :
    (now : ℕ) (t : ℤ) (db : Database) → IsValid db → IsValid (Users.get_or_create now t db).1
get_or_create-IsValid now t db v = elim (Bool-cases (fits_integer t)) [
  | inl fits ↦
      let (u, db', e, hu) = get_or_create_lem now t db v fits in
      subst (λ r. IsValid r.1) (sym e) hu.valid
  | inr unfit ↦ subst (λ r. IsValid r.1) (sym (get_or_create_unfit now t db unfit)) v
]

-- The states that a row is moved to without a payment.
abbrev pub is_downward : SubscriptionStatus → Bool
is_downward expiring = true
is_downward expired = true
is_downward kicked = true
is_downward _ = false

-- An allowed step downward comes from a state that is dated, and revives nothing.
downward_from :
    (s : Subscription) (status : SubscriptionStatus)
    → is_downward status ≡ true
    → can_transition s.status status ≡ true
    → is_dated s ≡ true
    → let s' : Subscription = record s { status = status } in
      (is_dated s' ≡ true) × (is_live s ≡ false → is_live s' ≡ false)
unfolding can_transition
downward_from s status down allowed dated = (ground arith, λ e. ground arith)

moved-IsValid :
    (s : Subscription) (status : SubscriptionStatus) (db : Database)
    → IsValid db
    → is_downward status ≡ true
    → find (has_key subscription_key s.id) db.subscriptions ≡ some s
    → IsValid (Subscriptions.update_status s.id status none db).1
moved-IsValid s status db v down found = elim (Bool-cases (can_transition s.status status)) [
  | inl allowed ↦
      let d =
        find-All subscription_key (λ t. is_dated t ≡ true) s.id s db.subscriptions v.dated found in
      let (dated, kept) = downward_from s status down allowed d in
      subst (λ r. IsValid r.1) (sym (update_status_lem s status none db found allowed))
        (put-IsValid s (record s { status = status }) db v found refl refl kept dated)
  | inr refused ↦
      let same : (Subscriptions.update_status s.id status none db).1 ≡ db =
        unfold Subscriptions.update_status can_transition in ground arith in
      subst IsValid (sym same) v
]

-- The two writes to a row that is looked up, which raise if there is none.
module _ (id : ℕ) (db : Database) (v : IsValid db) where
  pub update_status-IsValid :
      (status : SubscriptionStatus)
      → is_downward status ≡ true
      → IsValid (Subscriptions.update_status id status none db).1
  update_status-IsValid status down =
      elim (Option-cases (find (has_key subscription_key id) db.subscriptions)) [
        | inl absent ↦
            let same : (Subscriptions.update_status id status none db).1 ≡ db =
              unfold Subscriptions.update_status in ground arith in
            subst IsValid (sym same) v
        | inr (s, found) ↦
            let same_id = find-key subscription_key id s db.subscriptions found in
            subst (λ k. IsValid (Subscriptions.update_status k status none db).1) same_id
              (moved-IsValid s status db v down (
                subst (λ k. find (has_key subscription_key k) db.subscriptions ≡ some s)
                  (sym same_id) found))
      ]

  pub set_last_warning_days_left-IsValid :
      (d : Option ℕ) → IsValid (Subscriptions.set_last_warning_days_left id d db).1
  set_last_warning_days_left-IsValid d =
      elim (Option-cases (find (has_key subscription_key id) db.subscriptions)) [
        | inl absent ↦
            let same : (Subscriptions.set_last_warning_days_left id d db).1 ≡ db =
              unfold Subscriptions.set_last_warning_days_left in ground arith in
            subst IsValid (sym same) v
        | inr (s, found) ↦
            let same_id = find-key subscription_key id s db.subscriptions found in
            let stored =
              subst (λ k. find (has_key subscription_key k) db.subscriptions ≡ some s) (sym same_id)
                found in
            let dated =
              find-All subscription_key (λ t. is_dated t ≡ true) s.id s db.subscriptions v.dated
                stored in
            subst (λ k. IsValid (Subscriptions.set_last_warning_days_left k d db).1) same_id
              (subst (λ r. IsValid r.1) (sym (set_last_warning_lem s d db stored))
                (put-IsValid s (record s { last_warning_days_left = d }) db v stored refl refl
                  (λ e. e) dated))
      ]
