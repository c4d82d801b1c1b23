-- ===== src/System/Redelivery.antt =====
-- Stripe delivers its events again, hours later if it must, while the rest of the program goes on.
use telegram_subscription_ma.Base.{ℕ, ◌≡◌, true, false, some, List, arith, sym, subst}
use telegram_subscription_ma.Base.Int.{ℤ}
use telegram_subscription_ma.Base.Text.{text_eq_refl}
use telegram_subscription_ma.Base.Action.{ok}
use telegram_subscription_ma.Db.Users.{fits_integer}
use telegram_subscription_ma.Db.Invariant.{IsValid}
use telegram_subscription_ma.Telegram.{Bot, Settings}
use telegram_subscription_ma.Services.PaymentService.{provider_stripe}
use telegram_subscription_ma.Web.StripeWebhook.{Event, extract_telegram_id, handle_event}
use telegram_subscription_ma.Web.StripeWebhook.Paid.{paid_delivery}
use telegram_subscription_ma.Web.StripeWebhook.Deliveries.{
  is_recorded, is_handled, is_payment, already_processed, recorded_delivery,
}
use telegram_subscription_ma.System.Recorded.{HasRef, Reach-HasRef}
use telegram_subscription_ma.System.Turns.{App, Turn, run, run-IsValid}

module _ (settings : Settings) (bot : Bot) (now local_now : ℕ) (event : Event) (app : App)
    (handled : is_handled event ≡ true)
    (fresh : is_recorded event.session app.world.database ≡ false) (paid : is_payment event ≡ true)
    (t : ℤ) (payer : extract_telegram_id event.session ≡ some t) (v : IsValid app.world.database)
    (fits : fits_integer t ≡ true) where
  abbrev delivered : App
  delivered = record app {
    world = (handle_event settings bot now local_now (ok event) app.world).1;
  }

  -- Once a delivery has committed a payment of a payer whose id the column holds, on a valid
  -- database, every further handled event of its checkout session is acknowledged as processed,
  -- whatever it says and whatever else the program has done in between: nothing is written and nobody
  -- is told.
  pub delivered_again :
      (ts : List Turn) (next_settings : Settings) (next_bot : Bot) (later local_later : ℕ)
      (next : Event)
      → is_handled next ≡ true
      → next.session.id ≡ event.session.id
      → let app' = run ts delivered in
        handle_event next_settings next_bot later local_later (ok next) app'.world
        ≡ (ok already_processed, app'.world)
  delivered_again ts ns nb later ll next handled' same =
      let (s, r, act, told) =
        paid_delivery settings bot now local_now event app.world handled fresh paid t payer v
          fits in
      let recorded : HasRef provider_stripe event.session.id delivered.world.database =
        rw act.recorded
          (ground (arith, text_eq_refl provider_stripe, text_eq_refl event.session.id)) in
      let (reached, _) = run-IsValid ts delivered act.valid in
      let kept = Reach-HasRef provider_stripe event.session.id reached act.valid recorded in
      recorded_delivery ns nb later ll next (run ts delivered).world handled'
        (subst (λ id. HasRef provider_stripe id (run ts delivered).world.database) (sym same) kept)
