-- ===== src/Db/Laws.antt =====
-- What the repository calls of app/db/repositories.py do on a valid database.
use telegram_subscription_ma.Base.{
  ℕ, ◌+◌, ◌≡◌, refl, true, false, Option-cases, inl, inr, Option, none, some, List, [], ◌∷◌, arith,
  where_rows, first, find,
}
use telegram_subscription_ma.Base.Int.{ℤ, int_eq_iff}
use telegram_subscription_ma.Base.Rows.{put, has_key}
use telegram_subscription_ma.Base.Sorted.{In, first-In, In-where_rows}
use telegram_subscription_ma.Base.Action.{ok, err}
use telegram_subscription_ma.Db.Models.{SubscriptionStatus, User, Subscription, Database}
use telegram_subscription_ma.Db.Exceptions.{data_error}
use telegram_subscription_ma.Db.Users
use telegram_subscription_ma.Db.Users.{has_telegram_id, fits_integer}
use telegram_subscription_ma.Db.Subscriptions
use telegram_subscription_ma.Db.Subscriptions.{with_expiry}
use telegram_subscription_ma.Db.Invariant.{
  IsValid, subscription_key, scalar_one_or_none_lem, first-where_rows-true, where_rows-any_row,
}
use telegram_subscription_ma.Domain.Subscription.{can_transition}

-- What `get_or_create` leaves: a user with the id that was asked for, in a valid database whose
-- other tables are untouched.
pub record HasUser (telegram_id : ℤ) (db : Database) (u : User) (db' : Database) : Type 0 where
  pub valid : IsValid db'
  pub identified : u.telegram_id ≡ telegram_id
  pub listed : In u db'.users
  pub same_subscriptions : db'.subscriptions ≡ db.subscriptions
  pub same_payments : db'.payments ≡ db.payments
  pub same_payment_id : db'.next_payment_id ≡ db.next_payment_id

-- The row of a user who is registered now.
abbrev pub new_user : ℕ → ℤ → Database → User
new_user now t db = record {
  id = db.next_user_id;
  telegram_id = t;
  created_at = now;
  last_question_at = none;
}

abbrev pub with_new_user : ℕ → ℤ → Database → Database
with_new_user now t db = record db {
  users = new_user now t db ∷ db.users;
  next_user_id = db.next_user_id + 1;
}

pub get_by_telegram_id_lem :
    (t : ℤ) (db : Database)
    → IsValid db
    → fits_integer t ≡ true
    → Users.get_by_telegram_id t db ≡ (ok (first (where_rows (has_telegram_id t) db.users)), db)
unfolding Users.get_by_telegram_id
get_by_telegram_id_lem t db v fits =
    ground (arith, scalar_one_or_none_lem t db.users v.telegram_unique)

pub get_or_create_found :
    (now : ℕ) (t : ℤ) (db : Database) (u : User)
    → IsValid db
    → fits_integer t ≡ true
    → first (where_rows (has_telegram_id t) db.users) ≡ some u
    → Users.get_or_create now t db ≡ (ok u, db)
unfolding Users.get_or_create
get_or_create_found now t db u v fits found = ground (arith, get_by_telegram_id_lem t db v fits)

pub get_or_create_new :
    (now : ℕ) (t : ℤ) (db : Database)
    → IsValid db
    → fits_integer t ≡ true
    → first (where_rows (has_telegram_id t) db.users) ≡ none
    → Users.get_or_create now t db ≡ (ok (new_user now t db), with_new_user now t db)
unfolding Users.get_or_create Users.insert_user
get_or_create_new now t db v fits absent = ground (
  arith,
  get_by_telegram_id_lem t db v fits,
  where_rows-any_row (has_telegram_id t) db.users absent,
)

-- A number that the column cannot hold is no user's, and none is created for it.
pub get_or_create_unfit :
    (now : ℕ) (t : ℤ) (db : Database)
    → fits_integer t ≡ false
    → Users.get_or_create now t db ≡ (err data_error, db)
unfolding Users.get_or_create Users.get_by_telegram_id
get_or_create_unfit now t db unfit = ground arith

pub get_or_create_lem :
    (now : ℕ) (t : ℤ) (db : Database)
    → IsValid db
    → fits_integer t ≡ true
    → (u : User) × (db' : Database) × (Users.get_or_create now t db ≡ (ok u, db'))
      × HasUser t db u db'
get_or_create_lem now t db v fits =
    elim (Option-cases (first (where_rows (has_telegram_id t) db.users))) [
      | inl absent ↦ (
        new_user now t db,
        with_new_user now t db,
        get_or_create_new now t db v fits absent,
        record {
          valid = record {
            users_keyed = (omega arith, v.users_keyed);
            subscriptions_keyed = v.subscriptions_keyed;
            payments_keyed = v.payments_keyed;
            telegram_unique =
                (where_rows-any_row (has_telegram_id t) db.users absent, v.telegram_unique);
            refs_unique = v.refs_unique;
            one_live = v.one_live;
            dated = v.dated;
          };
          identified = refl;
          listed = inl refl;
          same_subscriptions = refl;
          same_payments = refl;
          same_payment_id = refl;
        },
      )
      | inr (u, found) ↦ (
        u,
        db,
        get_or_create_found now t db u v fits found,
        record {
          valid = v;
          identified =
              (int_eq_iff u.telegram_id t).0
                (first-where_rows-true (has_telegram_id t) u db.users found);
          listed = (In-where_rows (has_telegram_id t) u db.users (first-In u _ found)).0;
          same_subscriptions = refl;
          same_payments = refl;
          same_payment_id = refl;
        },
      )
    ]

pub put-put :
    (x y : Subscription) (xs : List Subscription)
    → x.id ≡ y.id
    → put subscription_key y (put subscription_key x xs) ≡ put subscription_key y xs
put-put x y [] e = refl
put-put x y (z ∷ zs) e = ground (arith, put-put x y zs e)

-- An allowed transition writes the one row, and nothing else.
pub update_status_lem :
    (s : Subscription) (new_status : SubscriptionStatus) (e : Option ℕ) (db : Database)
    → find (has_key subscription_key s.id) db.subscriptions ≡ some s
    → can_transition s.status new_status ≡ true
    → let s' = with_expiry e (record s { status = new_status }) in
      Subscriptions.update_status s.id new_status e db
      ≡ (ok s', record db { subscriptions = put subscription_key s' db.subscriptions })
unfolding Subscriptions.update_status
update_status_lem s new_status none db found allowed = ground arith
update_status_lem s new_status (some e) db found allowed = ground arith

pub set_last_warning_lem :
    (s : Subscription) (d : Option ℕ) (db : Database)
    → find (has_key subscription_key s.id) db.subscriptions ≡ some s
    → let s' = record s { last_warning_days_left = d } in
      Subscriptions.set_last_warning_days_left s.id d db
      ≡ (ok s', record db { subscriptions = put subscription_key s' db.subscriptions })
unfolding Subscriptions.set_last_warning_days_left
set_last_warning_lem s d db found = ground arith
