-- ===== src/Web/StripeWebhook.antt =====
-- app/web/stripe_webhook.py, from the request that aiohttp has read to the response. Checking a
-- signature is the stripe library's and a parameter. `now` is `utcnow()` and `local_now` what the
-- price goes by; an amount is in hundredths.
pub mod Deliveries
pub mod Paid
pub mod Retries
pub mod Checkout
use telegram_subscription_ma.Base.{
  ℕ, ◌-◌, ◌*◌, leb, Bool, true, false, not, ◌&&◌, ◌||◌, Option, none, some, List, [], ◌∷◌, any_row,
  if◌then◌else◌,
}
use telegram_subscription_ma.Base.Int.{ℤ}
use telegram_subscription_ma.Base.Text.{Text, codes, text_eq}
use telegram_subscription_ma.Base.Numerals.{int_of}
use telegram_subscription_ma.Base.Action.{Result, ok, err, pure, raise, catch, ◌>>=◌, ◌>>◌}
use telegram_subscription_ma.Db.Models.{Subscription, Payment}
use telegram_subscription_ma.Db.Exceptions.{Exception}
use telegram_subscription_ma.Db.Payments
use telegram_subscription_ma.Domain.Pricing.{get_current_price}
use telegram_subscription_ma.Services.ChannelAccess.{confirm_and_grant_access}
use telegram_subscription_ma.Services.PaymentService.{provider_stripe, activate_paid_checkout}
use telegram_subscription_ma.Telegram.{Bot, Settings, truthy, Program, in_db}

-- The keys of a checkout session that the handler reads; `none` where `.get` finds nothing.
pub record Session : Type 0 where
  pub id : Text
  pub client_reference_id : Option Text
  pub currency : Option Text
  pub amount_total : Option ℕ
  pub payment_status : Option Text

pub record Event : Type 0 where
  pub type : Text
  pub session : Session

-- What `stripe.Webhook.construct_event` raises.
pub data StripeError : Type 0 where
  invalid_payload signature_verification_error : StripeError

-- `construct_event(payload, signature, secret)`
abbrev pub Verifier : Type 0
Verifier = Text → Text → Text → Result StripeError Event

pub record Response : Type 0 where
  pub status : ℕ
  pub text : Text

abbrev pub session_completed : Text
session_completed = codes "checkout.session.completed"

abbrev pub async_payment_succeeded : Text
async_payment_succeeded = codes "checkout.session.async_payment_succeeded"

abbrev pub async_payment_failed : Text
async_payment_failed = codes "checkout.session.async_payment_failed"

abbrev pub handled_events : List Text
handled_events = session_completed ∷ async_payment_succeeded ∷ async_payment_failed ∷ []

unfoldable pub extract_telegram_id : Session → Option ℤ
extract_telegram_id session = elim session.client_reference_id [
  | none ↦ none
  | some raw ↦ int_of raw
]

-- `str.upper` on the letters of a currency code.
abbrev pub upper : Text → Text
upper [] = []
upper (c ∷ text) = (if leb 97 c && leb c 122 then c - 32 else c) ∷ upper text

-- `(session.get("currency") or "pln").upper()`
abbrev pub currency_of : Option Text → Text
currency_of none = upper (codes "pln")
currency_of (some text) = upper text

unfoldable pub extract_amount : ℕ → Session → ℕ × Text
extract_amount local_now session = (
  elim session.amount_total [ none ↦ get_current_price local_now * 100 | some total ↦ total ],
  currency_of (truthy session.currency),
)

-- `payment_status != "paid"`, negated.
abbrev pub is_paid : Session → Bool
is_paid session = elim session.payment_status [
  | none ↦ false
  | some status ↦ text_eq status (codes "paid")
]

-- What follows an activation: `none` is the `except`, `some none` the lost race.
unfoldable pub report : Settings → Bot → ℤ → Option (Option Subscription) → Program Response
report settings bot telegram_id none =
    pure (record { status = 500; text = codes "activation failed" })
report settings bot telegram_id (some none) =
    pure (record { status = 200; text = codes "already processed" })
report settings bot telegram_id (some (some subscription)) =
    confirm_and_grant_access settings bot telegram_id
    >> pure (record { status = 200; text = codes "ok" })

unfoldable pub try_activate : ℕ → ℕ → Session → ℤ → Program (Option (Option Subscription))
try_activate now local_now session telegram_id =
    let (amount, currency) = extract_amount local_now session in
    catch
      (in_db (activate_paid_checkout now telegram_id session.id amount currency) >>= λ subscription.
        pure (some subscription))
      (λ e. pure none)

-- From `_extract_telegram_id` on.
unfoldable pub process_payment : Settings → Bot → ℕ → ℕ → Session → Option ℤ → Program Response
process_payment settings bot now local_now session none =
    pure (record { status = 200; text = codes "unidentified payer" })
process_payment settings bot now local_now session (some telegram_id) =
    try_activate now local_now session telegram_id >>= report settings bot telegram_id

-- From the lookup of the payment on.
unfoldable pub process_event : Settings → Bot → ℕ → ℕ → Event → Option Payment → Program Response
process_event settings bot now local_now event (some existing) =
    pure (record { status = 200; text = codes "already processed" })
process_event settings bot now local_now event none =
    if text_eq event.type async_payment_failed
    then pure (record { status = 200; text = codes "payment failed" })
    else if text_eq event.type session_completed && not (is_paid event.session)
    then pure (record { status = 200; text = codes "awaiting payment" })
    else process_payment settings bot now local_now event.session
        (extract_telegram_id event.session)

unfoldable pub handle_event : Settings → Bot → ℕ → ℕ → Result StripeError Event → Program Response
handle_event settings bot now local_now (err invalid_payload) =
    pure (record { status = 400; text = codes "invalid payload" })
handle_event settings bot now local_now (err signature_verification_error) =
    pure (record { status = 400; text = codes "invalid signature" })
handle_event settings bot now local_now (ok event) =
    if not (any_row (text_eq event.type) handled_events)
    then pure (record { status = 200; text = codes "ignored" })
    else (in_db (Payments.get_by_provider_ref provider_stripe event.session.id)
        >>= process_event settings bot now local_now event)

-- `handle_stripe_webhook`, by the secret that is configured.
unfoldable pub handle_with :
    Settings → Bot → Verifier → ℕ → ℕ → Text → Text → Option Text → Program Response
handle_with settings bot verify now local_now payload signature none =
    pure (record { status = 500; text = codes "webhook secret not configured" })
handle_with settings bot verify now local_now payload signature (some secret) =
    handle_event settings bot now local_now (verify payload signature secret)

unfoldable pub handle_stripe_webhook :
    Settings → Bot → Verifier → ℕ → ℕ → Text → Text → Program Response
handle_stripe_webhook settings bot verify now local_now payload signature =
    handle_with settings bot verify now local_now payload signature
      (truthy settings.stripe_webhook_secret)
