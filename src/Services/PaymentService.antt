-- ===== src/Services/PaymentService.antt =====
-- app/services/payment_service.py. A coroutine here is one database transaction that runs with nothing
-- in between; Race and Locked are about what others commit meanwhile. `now` is `utcnow()`, which the
-- transaction's default timestamps share.
pub mod Renewal
pub mod Activation
pub mod Idempotence
pub mod Refinement
pub mod Settlement
pub mod Confirmation
pub mod Race
pub mod Locked
use telegram_subscription_ma.Base.{
  ℕ, ◌+◌, ◌*◌, max, ◌==◌, Bool, true, not, ◌&&◌, ◌||◌, Option, none, some, ◌++◌, if◌then◌else◌,
  is_some,
}
use telegram_subscription_ma.Base.Int.{ℤ}
use telegram_subscription_ma.Base.Text.{Text, codes}
use telegram_subscription_ma.Base.Action.{
  Result, ok, err, pure, raise, lift, transaction, catch, ◌>>=◌, ◌>>◌,
}
use telegram_subscription_ma.Db.Models.{pending, active, status_eq, Subscription, Payment}
use telegram_subscription_ma.Db.Exceptions.{
  Exception, duplicate_payment, invalid_transition, value_error, key_error, integrity_error,
  multiple_results_found, Query,
}
use telegram_subscription_ma.Db.Users
use telegram_subscription_ma.Db.Subscriptions
use telegram_subscription_ma.Db.Payments
use telegram_subscription_ma.Domain.Calendar.{microseconds_per_day}
use telegram_subscription_ma.Domain.Pricing.{get_current_price}

abbrev pub provider_stripe : Text
provider_stripe = codes "stripe"

abbrev pub provider_manual_admin : Text
provider_manual_admin = codes "manual_admin"

abbrev pub subscription_days : ℕ
subscription_days = 30

unfoldable pub find_or_create_subscription : ℕ → ℕ → Query Subscription
find_or_create_subscription now user_id = do
  live ← Subscriptions.get_active_or_expiring_for_user user_id
  elim live [ some s ↦ pure s | none ↦ Subscriptions.create now user_id none pending ]

unfoldable pub compute_renewed_expires_at : ℕ → Option ℕ → ℕ
compute_renewed_expires_at now current_expires_at =
    let base : ℕ = elim current_expires_at [ none ↦ now | some e ↦ max now e ] in
    base + subscription_days * microseconds_per_day

-- The session holds one object for a row, so what `_activate` returns is also what the second
-- update wrote.
unfoldable pub activate : ℕ → Subscription → Query Subscription
activate now subscription =
    let new_expires_at = compute_renewed_expires_at now subscription.expires_at in
    Subscriptions.update_status subscription.id active (some new_expires_at) >>= λ _.
    Subscriptions.set_last_warning_days_left subscription.id none

-- `except DuplicatePaymentError: … return None`; any other exception goes on.
unfoldable pub on_duplicate : Exception → Query (Option Subscription)
on_duplicate (duplicate_payment provider provider_ref) = pure none
on_duplicate e = raise e

-- The body of the transaction of `_activate_subscription`.
unfoldable pub record_and_activate : ℕ → ℤ → Text → Text → ℕ → Text → Query (Option Subscription)
record_and_activate now telegram_id provider provider_ref amount currency = do
  user ← Users.get_or_create now telegram_id
  subscription ← find_or_create_subscription now user.id
  payment ← Payments.create now subscription.id provider provider_ref amount currency
  activated ← activate now subscription
  pure (some activated)

unfoldable pub activate_subscription : ℕ → ℤ → Text → Text → ℕ → Text → Query (Option Subscription)
unfolding on_duplicate
activate_subscription now telegram_id provider provider_ref amount currency =
    catch (transaction (record_and_activate now telegram_id provider provider_ref amount currency))
      on_duplicate

unfoldable pub activate_paid_checkout : ℕ → ℤ → Text → ℕ → Text → Query (Option Subscription)
activate_paid_checkout now telegram_id session_id amount currency =
    activate_subscription now telegram_id provider_stripe session_id amount currency

-- `uuid4` is the text of the fresh uuid; an amount in whole złoty is counted in grosze.
unfoldable pub activate_manual_admin_grant : ℕ → ℕ → Text → ℤ → Query (Option Subscription)
activate_manual_admin_grant now local_now uuid4 telegram_id =
    activate_subscription now telegram_id provider_manual_admin (codes "manual-admin-" ++ uuid4)
      (get_current_price local_now * 100) (codes "PLN")

-- The renewal of the live subscription, if there is one, and of the placeholder otherwise.
unfoldable pub settle : ℕ → Subscription → Option Subscription → Query Subscription
settle now placeholder (some live) =
    (if live.id == placeholder.id
      then pure tt
      else Payments.repoint_subscription placeholder.id live.id)
    >> activate now live
settle now placeholder none = activate now placeholder

unfoldable pub confirm_pending : ℕ → Subscription → Query Subscription
confirm_pending now placeholder = do
  payment ← Payments.get_for_subscription placeholder.id
  if not (status_eq placeholder.status pending) || not (is_some payment)
      then raise (invalid_transition placeholder.status active)
      else Subscriptions.get_active_or_expiring_for_user placeholder.user_id
        >>= settle now placeholder

unfoldable pub confirm_manual_payment : ℕ → ℕ → Query Subscription
unfolding confirm_pending
confirm_manual_payment now pending_subscription_id = transaction do
  found ← Subscriptions.get_by_id pending_subscription_id true
  elim found [ none ↦ raise value_error | some placeholder ↦ confirm_pending now placeholder ]
