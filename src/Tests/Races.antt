-- ===== src/Tests/Races.antt =====
-- Two payments of one payer at the same time, a Stripe delivery and an /activate.
use telegram_subscription_ma.Base.{◌≡◌, refl, ◌+◌, ◌*◌, none, some, Option, [], ◌∷◌, find, order_by}
use telegram_subscription_ma.Base.Int.{ℤ, pos}
use telegram_subscription_ma.Base.Text.{codes}
use telegram_subscription_ma.Base.Rows.{has_key}
use telegram_subscription_ma.Base.Action.{Result, ok}
use telegram_subscription_ma.Db.Models.{active, Subscription, Database}
use telegram_subscription_ma.Db.Exceptions.{Exception}
use telegram_subscription_ma.Db.Users
use telegram_subscription_ma.Db.Subscriptions
use telegram_subscription_ma.Db.Subscriptions.{live_rows}
use telegram_subscription_ma.Db.Payments
use telegram_subscription_ma.Db.Invariant.{IsValid, subscription_key}
use telegram_subscription_ma.Services.PaymentService.{
  activate_subscription, record_and_activate, find_or_create_subscription, activate,
  compute_renewed_expires_at,
}
use telegram_subscription_ma.Services.PaymentService.Race.{
  record_and_activate_racing, two_live_rows, renewal_lost,
}
use telegram_subscription_ma.System
use telegram_subscription_ma.System.{here, next}
use telegram_subscription_ma.System.Invariant.{Reach-IsValid}
use telegram_subscription_ma.Tests.Data.{noon, anna, boris, annas, shop, shop-IsValid, day_length}

-- What a Stripe delivery commits for a payer.
abbrev delivered : ℤ → Database → Database
delivered t db =
    (activate_subscription noon t (codes "stripe") (codes "cs_1") 5500 (codes "PLN") db).1

delivered-IsValid : (t : ℤ) → IsValid (delivered t shop)
delivered-IsValid t =
    Reach-IsValid
      (next here (System.activate noon t (codes "stripe") (codes "cs_1") 5500 (codes "PLN") refl))
      shop-IsValid

-- The admin's /activate of the same payer, while the delivery commits.
abbrev granted : ℤ → Result Exception (Option Subscription) × Database
granted t =
    record_and_activate_racing (delivered t) noon t (codes "manual_admin") (codes "manual-admin-1")
      5500 (codes "PLN") shop

abbrev boriss_delivered : Subscription
boriss_delivered = record {
  id = 3;
  user_id = 2;
  status = active;
  expires_at = some (noon + 30 * day_length);
  last_warning_days_left = none;
  created_at = noon;
}

two_live_rows_example :
    (new : Subscription) × ((granted (pos 202)).0 ≡ ok (some new))
    × (live_rows 2 (granted (pos 202)).1 ≡ new ∷ boriss_delivered ∷ [])
    × (new.expires_at ≡ some (noon + 30 * day_length))
unfolding activate_subscription record_and_activate Users.get_or_create Users.get_by_telegram_id
    Users.scalar_one_or_none find_or_create_subscription
    Subscriptions.get_active_or_expiring_for_user Payments.create activate Subscriptions.create
    Subscriptions.update_status Subscriptions.set_last_warning_days_left order_by
    compute_renewed_expires_at
two_live_rows_example =
    two_live_rows (delivered (pos 202)) noon (pos 202) (codes "manual_admin")
      (codes "manual-admin-1") 5500 (codes "PLN") shop boris refl (delivered-IsValid (pos 202)) refl
      boriss_delivered refl refl

renewal_lost_example :
    (r : Subscription) × ((granted (pos 101)).0 ≡ ok (some r))
    × (find (has_key subscription_key 1) (granted (pos 101)).1.subscriptions ≡ some r)
    × (r.expires_at ≡ some (noon + 32 * day_length))
unfolding activate_subscription record_and_activate Users.get_or_create Users.get_by_telegram_id
    Users.scalar_one_or_none find_or_create_subscription
    Subscriptions.get_active_or_expiring_for_user Payments.create activate Subscriptions.create
    Subscriptions.update_status Subscriptions.set_last_warning_days_left order_by
    compute_renewed_expires_at
renewal_lost_example =
    renewal_lost (delivered (pos 101)) noon (pos 101) (codes "manual_admin")
      (codes "manual-admin-1") 5500 (codes "PLN") shop anna refl (delivered-IsValid (pos 101)) refl
      annas (noon + 32 * day_length) refl refl
