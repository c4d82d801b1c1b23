-- ===== src/System/Webhook.antt =====
-- app/web/stripe_webhook.py as sequences of the steps of System.
use telegram_subscription_ma.Base.{
  ℕ, Option, none, some, refl, arith, not, if◌then◌else◌, ◌&&◌, any_row,
}
use telegram_subscription_ma.Base.Int.{ℤ}
use telegram_subscription_ma.Base.Text.{Text, codes, text_eq}
use telegram_subscription_ma.Base.Action.{Result, ok, err, pure, ◌>>=◌}
use telegram_subscription_ma.Base.Action.Keeps.{Keeps, Keeps-bind, Keeps-catch, Keeps-if}
use telegram_subscription_ma.Db.Models.{Subscription, Payment, Database}
use telegram_subscription_ma.Db.Payments
use telegram_subscription_ma.Telegram.{Bot, Settings, in_db, truthy}
use telegram_subscription_ma.Telegram.ReadOnly.{IsReadOnly}
use telegram_subscription_ma.Services.PaymentService.{provider_stripe, activate_paid_checkout}
use telegram_subscription_ma.Services.ChannelAccess.Messages.{confirm_lem}
use telegram_subscription_ma.Web.StripeWebhook.{
  StripeError, invalid_payload, signature_verification_error, Verifier, Event, Session,
  session_completed, async_payment_failed, handled_events, extract_telegram_id, extract_amount,
  is_paid, report, try_activate, process_payment, process_event, handle_event, handle_with,
  handle_stripe_webhook,
}
use telegram_subscription_ma.System.{Reach, next, activate}
use telegram_subscription_ma.System.Clients.{OnWorld, reads-Keeps}

module _ (db0 : Database) (settings : Settings) (bot : Bot) (now local_now : ℕ) where
  report-IsReadOnly :
      (t : ℤ) (outcome : Option (Option Subscription)) → IsReadOnly (report settings bot t outcome)
  unfolding report
  report-IsReadOnly t none w = refl
  report-IsReadOnly t (some none) w = refl
  report-IsReadOnly t (some (some s)) w =
      let (b, told, same) = confirm_lem settings bot t w in ground (arith, told, same)

  try_activate-Keeps :
      (session : Session) (t : ℤ)
      → Keeps (OnWorld (Reach db0)) (try_activate now local_now session t)
  unfolding try_activate activate_paid_checkout
  try_activate-Keeps session t =
      let (amount, currency) = extract_amount local_now session in
      let pay = in_db (activate_paid_checkout now t session.id amount currency) in
      Keeps-catch (OnWorld (Reach db0)) (pay >>= λ s. pure (some s)) (λ e. pure none)
        (Keeps-bind (OnWorld (Reach db0)) pay (λ s. pure (some s))
          (λ w h. next h (activate now t provider_stripe session.id amount currency refl))
          (λ s w h. h))
        (λ e w h. h)

  process_payment-Keeps :
      (session : Session) (payer : Option ℤ)
      → Keeps (OnWorld (Reach db0)) (process_payment settings bot now local_now session payer)
  unfolding process_payment
  process_payment-Keeps session none = λ w h. h
  process_payment-Keeps session (some t) =
      Keeps-bind (OnWorld (Reach db0)) (try_activate now local_now session t)
        (report settings bot t) (try_activate-Keeps session t)
        (λ outcome.
          reads-Keeps (Reach db0) (report settings bot t outcome) (report-IsReadOnly t outcome))

  process_event-Keeps :
      (event : Event) (existing : Option Payment)
      → Keeps (OnWorld (Reach db0)) (process_event settings bot now local_now event existing)
  unfolding process_event
  process_event-Keeps event (some p) = λ w h. h
  process_event-Keeps event none =
      let paid =
        process_payment settings bot now local_now event.session
          (extract_telegram_id event.session) in
      let waiting = pure (record { status = 200; text = codes "awaiting payment" }) in
      let late = text_eq event.type session_completed && not (is_paid event.session) in
      Keeps-if (OnWorld (Reach db0)) (text_eq event.type async_payment_failed)
        (pure (record { status = 200; text = codes "payment failed" }))
        (if late then waiting else paid) (λ w h. h)
        (Keeps-if (OnWorld (Reach db0)) late waiting paid (λ w h. h)
          (process_payment-Keeps event.session (extract_telegram_id event.session)))

  handle_event-Keeps :
      (verified : Result StripeError Event)
      → Keeps (OnWorld (Reach db0)) (handle_event settings bot now local_now verified)
  unfolding handle_event Payments.get_by_provider_ref
  handle_event-Keeps (err invalid_payload) = λ w h. h
  handle_event-Keeps (err signature_verification_error) = λ w h. h
  handle_event-Keeps (ok event) =
      let lookup = in_db (Payments.get_by_provider_ref provider_stripe event.session.id) in
      Keeps-if (OnWorld (Reach db0)) (not (any_row (text_eq event.type) handled_events))
        (pure (record { status = 200; text = codes "ignored" }))
        (lookup >>= process_event settings bot now local_now event) (λ w h. h)
        (Keeps-bind (OnWorld (Reach db0)) lookup (process_event settings bot now local_now event)
          (λ w h. h) (process_event-Keeps event))

  module _ (verify : Verifier) (payload signature : Text) where
    handle_with-Keeps :
        (secret : Option Text)
        → Keeps
            (OnWorld (Reach db0))
            (handle_with settings bot verify now local_now payload signature secret)
    unfolding handle_with
    handle_with-Keeps none = λ w h. h
    handle_with-Keeps (some secret) = handle_event-Keeps (verify payload signature secret)

    pub handle_stripe_webhook-Keeps :
        Keeps
          (OnWorld (Reach db0))
          (handle_stripe_webhook settings bot verify now local_now payload signature)
    unfolding handle_stripe_webhook
    handle_stripe_webhook-Keeps = handle_with-Keeps (truthy settings.stripe_webhook_secret)
