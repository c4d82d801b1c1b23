-- ===== src/Tests/Web.antt =====
-- The theorems about app/web and the services it calls at concrete inputs.
use telegram_subscription_ma.Base.{◌≡◌, refl, some, [], ◌∷◌}
use telegram_subscription_ma.Base.Int.{pos}
use telegram_subscription_ma.Base.Text.{Text, codes}
use telegram_subscription_ma.Base.Numerals.{int_of}
use telegram_subscription_ma.Base.Action.{ok, err}
use telegram_subscription_ma.Db.Models.{Subscription}
use telegram_subscription_ma.Db.Invariant.{IsValid}
use telegram_subscription_ma.Telegram.{World}
use telegram_subscription_ma.Services.ChannelAccess.{confirm_and_grant_access}
use telegram_subscription_ma.Services.StripeService.{create_checkout_session}
use telegram_subscription_ma.Services.PaymentService.{provider_stripe}
use telegram_subscription_ma.Services.PaymentService.Activation.{Activated}
use telegram_subscription_ma.Web.StripeWebhook.{
  Session, Event, session_completed, async_payment_succeeded, extract_telegram_id, extract_amount,
  process_payment, handle_event, handle_stripe_webhook, Verifier, signature_verification_error,
}
use telegram_subscription_ma.Web.StripeWebhook.Deliveries.{
  already_processed, in_database, unpaid_delivery,
}
use telegram_subscription_ma.Web.StripeWebhook.Paid.{paid_delivery, oversized_payer}
use telegram_subscription_ma.Web.StripeWebhook.Retries.{
  race_lost, Settled, handle_stripe_webhook-Settled,
}
use telegram_subscription_ma.Web.StripeWebhook.Checkout.{
  extract_telegram_id-create_checkout_session,
}
use telegram_subscription_ma.Tests.Data.{noon, shop, shop-IsValid, boriss_payment}
use telegram_subscription_ma.Tests.Jobs.{obliging, live_settings, quiet_world}

abbrev pub checkout : Session
checkout = record {
  id = codes "cs_1";
  client_reference_id = some (codes "101");
  currency = some (codes "pln");
  amount_total = some 5500;
  payment_status = some (codes "paid");
}

abbrev pub card_payment : Event
card_payment = record { type = session_completed; session = checkout }

-- BLIK completes the session before the bank confirms.
abbrev blik_completed : Event
blik_completed = record {
  type = session_completed;
  session = record checkout { payment_status = some (codes "unpaid") };
}

abbrev pub blik_succeeded : Event
blik_succeeded = record { type = async_payment_succeeded; session = checkout }

pub annas_reference : extract_telegram_id checkout ≡ some (pos 101)
unfolding extract_telegram_id int_of
annas_reference = refl

paid_delivery_example :
    let (amount, currency) = extract_amount noon checkout in
    let (result, w') =
      handle_event live_settings obliging noon noon (ok card_payment) quiet_world in
    (s : Subscription) × (result ≡ ok (record { status = 200; text = codes "ok" }))
    × Activated noon (pos 101) provider_stripe (codes "cs_1") amount currency shop s w'.database
    × (w'.calls
        ≡ (confirm_and_grant_access live_settings obliging
            (pos 101)
            (in_database w'.database quiet_world)).1.calls)
paid_delivery_example =
    paid_delivery live_settings obliging noon noon card_payment quiet_world refl refl refl (pos 101)
      annas_reference shop-IsValid refl

unpaid_delivery_example :
    (text : Text) × (handle_event live_settings obliging noon noon (ok blik_completed) quiet_world
      ≡ (ok (record { status = 200; text = text }), quiet_world))
unpaid_delivery_example =
    unpaid_delivery live_settings obliging noon noon blik_completed quiet_world refl refl refl

-- A payer whose Telegram id needs 33 bits.
abbrev large_id_payment : Event
large_id_payment = record card_payment {
  session = record checkout { client_reference_id = some (codes "7000000000") };
}

large_id_read : extract_telegram_id large_id_payment.session ≡ some (pos 7_000_000_000)
unfolding extract_telegram_id int_of
large_id_read = refl

oversized_payer_example :
    handle_event live_settings obliging noon noon (ok large_id_payment) quiet_world
    ≡ (ok (record { status = 500; text = codes "activation failed" }), quiet_world)
oversized_payer_example =
    oversized_payer live_settings obliging noon noon large_id_payment quiet_world refl refl refl
      (pos 7_000_000_000) large_id_read refl

-- The shop after a delivery of the session.
abbrev sold : World
sold = record {
  database = record shop {
    payments =
        record boriss_payment { id = 1; provider = provider_stripe; provider_ref = codes "cs_1" }
        ∷ [];
  };
  calls = [];
}

sold-IsValid : IsValid sold.database
sold-IsValid = record {
  users_keyed = shop-IsValid.users_keyed;
  subscriptions_keyed = shop-IsValid.subscriptions_keyed;
  payments_keyed = shop-IsValid.payments_keyed;
  telegram_unique = shop-IsValid.telegram_unique;
  refs_unique = (refl, tt);
  one_live = shop-IsValid.one_live;
  dated = shop-IsValid.dated;
}

race_lost_example :
    process_payment live_settings obliging noon noon checkout (some (pos 101)) sold
    ≡ (ok already_processed, sold)
race_lost_example =
    race_lost live_settings obliging noon noon checkout (pos 101) sold sold-IsValid refl refl

-- A verifier that knows one secret and one event.
abbrev verify_card : Verifier
verify_card payload signature secret = ok card_payment

abbrev reject_all : Verifier
reject_all payload signature secret = err signature_verification_error

handle_stripe_webhook-Settled_example :
    Settled quiet_world
      (verify_card [] [] (codes "whsec"))
      (handle_stripe_webhook live_settings obliging verify_card noon noon [] [] quiet_world)
handle_stripe_webhook-Settled_example =
    handle_stripe_webhook-Settled live_settings obliging noon noon quiet_world shop-IsValid
      (codes "whsec") refl verify_card [] []

extract_telegram_id-create_checkout_session_example :
    extract_telegram_id (record checkout {
      client_reference_id =
          some (create_checkout_session (codes "dresscode_bot") noon (pos 101)).client_reference_id;
    })
    ≡ some (pos 101)
extract_telegram_id-create_checkout_session_example =
    extract_telegram_id-create_checkout_session (codes "dresscode_bot") noon (pos 101)
      (record checkout {
        client_reference_id =
            some
              (create_checkout_session (codes "dresscode_bot") noon (pos 101)).client_reference_id;
      })
      refl
