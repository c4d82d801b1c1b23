-- ===== src/Tests/Payments.antt =====
-- The theorems about app/services/payment_service.py at concrete inputs.
use telegram_subscription_ma.Base.{◌≡◌, ◌⊎◌, refl, true, false, some, none, any_row, order_by, inl}
use telegram_subscription_ma.Base.Int.{pos}
use telegram_subscription_ma.Base.Text.{codes}
use telegram_subscription_ma.Base.Action.{ok}
use telegram_subscription_ma.Db.Models.{Subscription, Database}
use telegram_subscription_ma.Db.Users
use telegram_subscription_ma.Db.Subscriptions
use telegram_subscription_ma.Db.Payments
use telegram_subscription_ma.Db.Payments.{has_ref}
use telegram_subscription_ma.Services.PaymentService.{
  activate_subscription, record_and_activate, find_or_create_subscription, activate,
  confirm_manual_payment, settle,
}
use telegram_subscription_ma.Services.PaymentService.Renewal.{renewed}
use telegram_subscription_ma.Services.PaymentService.Refinement.{accounts, extend, activate-extends}
use telegram_subscription_ma.Services.PaymentService.Activation.{
  Activated, activate_subscription_total,
}
use telegram_subscription_ma.Services.PaymentService.Confirmation.{
  Ends, confirm_manual_payment_total,
}
use telegram_subscription_ma.Tests.Data.{noon, annas, boriss, shop, shop-IsValid}

activate_subscription_total_example :
    ((any_row (has_ref (codes "stripe") (codes "cs_1")) shop.payments ≡ true)
      × (activate_subscription noon
            (pos 101)
            (codes "stripe")
            (codes "cs_1")
            5500
            (codes "PLN")
            shop
          ≡ (ok none, shop)))
    ⊎ ((any_row (has_ref (codes "stripe") (codes "cs_1")) shop.payments ≡ false)
        × ((s : Subscription) × (db' : Database) × (activate_subscription noon
                (pos 101)
                (codes "stripe")
                (codes "cs_1")
                5500
                (codes "PLN")
                shop
              ≡ (ok (some s), db'))
            × Activated noon
                (pos 101)
                (codes "stripe")
                (codes "cs_1")
                5500
                (codes "PLN")
                shop
                s
                db'))
activate_subscription_total_example =
    activate_subscription_total noon (pos 101) (codes "stripe") (codes "cs_1") 5500 (codes "PLN")
      shop shop-IsValid refl

-- What Anna's payment for session cs_1 leaves.
abbrev paid : Database
paid =
    (activate_subscription noon (pos 101) (codes "stripe") (codes "cs_1") 5500 (codes "PLN") shop).1

anna_paid :
    activate_subscription noon (pos 101) (codes "stripe") (codes "cs_1") 5500 (codes "PLN") shop
    ≡ (ok (some (renewed noon annas)), paid)
unfolding activate_subscription record_and_activate Users.get_or_create Users.get_by_telegram_id
    Users.scalar_one_or_none find_or_create_subscription
    Subscriptions.get_active_or_expiring_for_user Payments.create activate
    Subscriptions.update_status Subscriptions.set_last_warning_days_left order_by
anna_paid = refl

confirm_manual_payment_total_example : Ends noon 2 shop
confirm_manual_payment_total_example = confirm_manual_payment_total noon 2 shop shop-IsValid

abbrev confirmed : Database
confirmed = (confirm_manual_payment noon 2 shop).1

boris_confirmed : confirm_manual_payment noon 2 shop ≡ (ok (renewed noon boriss), confirmed)
unfolding confirm_manual_payment Subscriptions.get_by_id Payments.get_for_subscription settle
    Subscriptions.get_active_or_expiring_for_user activate Subscriptions.update_status
    Subscriptions.set_last_warning_days_left order_by
boris_confirmed = refl

activate-extends_example : accounts (activate noon annas shop).1 ≡ extend noon 1 (accounts shop)
unfolding order_by
activate-extends_example =
    activate-extends noon 3 annas shop shop-IsValid.subscriptions_keyed shop-IsValid.one_live refl
      (inl refl) refl
