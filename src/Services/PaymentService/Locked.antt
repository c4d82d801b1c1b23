-- ===== src/Services/PaymentService/Locked.antt =====
-- `confirm_manual_payment` of app/services/payment_service.py while other transactions commit, as they
-- can under READ COMMITTED. It locks the placeholder.
use telegram_subscription_ma.Base.{ℕ, ◌≡◌, refl, true, none, some}
use telegram_subscription_ma.Base.Action.{raise, transaction, modify, ◌>>=◌, ◌>>◌}
use telegram_subscription_ma.Db.Models.{Subscription, Database}
use telegram_subscription_ma.Db.Exceptions.{value_error, Query}
use telegram_subscription_ma.Db.Subscriptions
use telegram_subscription_ma.Db.Subscriptions.{KeepsLocked}
use telegram_subscription_ma.Services.PaymentService.{confirm_pending, confirm_manual_payment}

-- `confirm_manual_payment`; `others` is what other transactions commit between the locked lookup of
-- the placeholder and the statements after it. Nothing is written before.
unfoldable pub confirm_manual_payment_racing : (Database → Database) → ℕ → ℕ → Query Subscription
confirm_manual_payment_racing others now pending_subscription_id = do
  found ← Subscriptions.get_by_id pending_subscription_id true
  modify others
  transaction
      (elim found [ none ↦ raise value_error | some placeholder ↦ confirm_pending now placeholder ])

-- The lock makes that serial: where the others keep the locked row, the confirmation does what it does
-- after them.
pub confirm_manual_payment_racing-serial :
    (others : Database → Database) (now id : ℕ) (db : Database)
    → KeepsLocked id true db (others db)
    → confirm_manual_payment_racing others now id db ≡ confirm_manual_payment now id (others db)
unfolding confirm_manual_payment_racing confirm_manual_payment Subscriptions.get_by_id
confirm_manual_payment_racing-serial others now id db unwritten = rw (← unwritten refl) refl
