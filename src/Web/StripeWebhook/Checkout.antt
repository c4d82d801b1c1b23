-- ===== src/Web/StripeWebhook/Checkout.antt =====
-- From the checkout session of app/services/stripe_service.py to app/web/stripe_webhook.py.
use telegram_subscription_ma.Base.{ℕ, ◌≡◌, none, some, arith, ◌⊎◌, inl, inr}
use telegram_subscription_ma.Base.Int.{ℤ}
use telegram_subscription_ma.Base.Text.{Text, codes}
use telegram_subscription_ma.Base.Numerals.{int_of-str_int}
use telegram_subscription_ma.Services.StripeService.{create_checkout_session}
use telegram_subscription_ma.Web.StripeWebhook.{Session, extract_telegram_id, extract_amount}

-- A session that keeps the reference that it was created with names the payer again.
pub extract_telegram_id-create_checkout_session :
    (bot_username : Text) (local_now : ℕ) (t : ℤ) (session : Session)
    → session.client_reference_id
      ≡ some (create_checkout_session bot_username local_now t).client_reference_id
    → extract_telegram_id session ≡ some t
unfolding extract_telegram_id create_checkout_session
extract_telegram_id-create_checkout_session bot_username local_now t session kept =
    ground (arith, kept, int_of-str_int t)

-- A session that reports the currency it was created with, and the amount or none, is recorded at the
-- price that it was created with, in PLN.
pub extract_amount-create_checkout_session :
    (bot_username : Text) (local_now : ℕ) (t : ℤ) (session : Session)
    → session.currency ≡ some (create_checkout_session bot_username local_now t).currency
    → (session.amount_total ≡ none)
      ⊎ (session.amount_total ≡ some (create_checkout_session bot_username local_now t).unit_amount)
    → extract_amount local_now session
      ≡ ((create_checkout_session bot_username local_now t).unit_amount, codes "PLN")
unfolding extract_amount create_checkout_session
extract_amount-create_checkout_session bot_username local_now t session currency (inl absent) =
    ground (arith, currency, absent)
extract_amount-create_checkout_session bot_username local_now t session currency (inr total) =
    ground (arith, currency, total)
