-- ===== src/Web/StripeWebhook/Paid.antt =====
-- What a delivery of a Stripe event that says that the money has arrived does, in
-- app/web/stripe_webhook.py.
use telegram_subscription_ma.Base.{
  ℕ, ◌≡◌, refl, true, false, Bool-cases, inl, inr, none, some, arith, not, ◌&&◌, subst, sym, ap,
  ◌∙◌,
}
use telegram_subscription_ma.Base.Int.{ℤ}
use telegram_subscription_ma.Base.Text.{codes, text_eq}
use telegram_subscription_ma.Base.Action.{ok}
use telegram_subscription_ma.Db.Models.{Subscription}
use telegram_subscription_ma.Db.Invariant.{IsValid}
use telegram_subscription_ma.Telegram.{Bot, Settings, World, Program}
use telegram_subscription_ma.Services.ChannelAccess.{confirm_and_grant_access}
use telegram_subscription_ma.Services.PaymentService.{provider_stripe, activate_paid_checkout}
use telegram_subscription_ma.Services.PaymentService.Activation.{Activated}
use telegram_subscription_ma.Services.PaymentService.Idempotence.{
  fresh_activation, activate_subscription_unfit,
}
use telegram_subscription_ma.Services.ChannelAccess.Messages.{confirm_lem}
use telegram_subscription_ma.Db.Users.{fits_integer}
use telegram_subscription_ma.Web.StripeWebhook.Deliveries.{
  is_recorded, is_handled, is_payment, in_database, not_also, skip_two, looked_up,
}
use telegram_subscription_ma.Web.StripeWebhook.{
  Event, Response, session_completed, async_payment_succeeded, async_payment_failed,
  extract_telegram_id, extract_amount, is_paid, report, try_activate, process_payment,
  process_event, handle_event,
}

report_paid :
    (settings : Settings) (bot : Bot) (t : ℤ) (s : Subscription) (w : World)
    → report settings bot t (some (some s)) w ≡ (
      ok (record { status = 200; text = codes "ok" }),
      (confirm_and_grant_access settings bot t w).1,
    )
unfolding report
report_paid settings bot t s w =
    let (b, e, same) = confirm_lem settings bot t w in ground (arith, e)

module _ (settings : Settings) (bot : Bot) (now local_now : ℕ) (event : Event) (w : World)
    (handled : is_handled event ≡ true) (fresh : is_recorded event.session w.database ≡ false)
    (paid : is_payment event ≡ true) where
  not_failed : text_eq event.type async_payment_failed ≡ false
  not_failed = elim (Bool-cases (text_eq event.type async_payment_succeeded)) [
    | inl y ↦ not_also event.type async_payment_succeeded async_payment_failed y refl
    | inr n ↦ not_also event.type session_completed async_payment_failed (ground arith) refl
  ]

  not_awaiting : (text_eq event.type session_completed && not (is_paid event.session)) ≡ false
  not_awaiting = elim (Bool-cases (text_eq event.type session_completed)) [
    | inl c ↦
        let other = not_also event.type session_completed async_payment_succeeded c refl in
        ground arith
    | inr n ↦ ground arith
  ]

  to_payment :
      handle_event settings bot now local_now (ok event) w
      ≡ process_payment settings bot now local_now event.session
          (extract_telegram_id event.session)
          w
  unfolding process_event
  to_payment =
      looked_up settings bot now local_now event w handled fresh
      ∙ ap (λ (m : Program Response). m w)
          (skip_two (text_eq event.type async_payment_failed)
            (text_eq event.type session_completed && not (is_paid event.session)) _ _ _ not_failed
            not_awaiting)

  -- A payment that names no payer is acknowledged, and changes nothing.
  pub unidentified_delivery :
      extract_telegram_id event.session ≡ none
      → handle_event settings bot now local_now (ok event) w
        ≡ (ok (record { status = 200; text = codes "unidentified payer" }), w)
  unfolding process_payment
  unidentified_delivery e = ground (arith, to_payment, e)

  -- An event of a handled type that says that the money has arrived, for a session that is not
  -- recorded and names a payer whose id the column INTEGER holds, on a valid database: the activation is committed, the payer is
  -- told, and the delivery is acknowledged.
  pub paid_delivery :
      (t : ℤ)
      → extract_telegram_id event.session ≡ some t
      → IsValid w.database
      → fits_integer t ≡ true
      → let (amount, currency) = extract_amount local_now event.session in
        let (result, w') = handle_event settings bot now local_now (ok event) w in
        (s : Subscription) × (result ≡ ok (record { status = 200; text = codes "ok" }))
        × Activated now t provider_stripe event.session.id amount currency w.database s w'.database
        × (w'.calls ≡ (confirm_and_grant_access settings bot t (in_database w'.database w)).1.calls)
  unfolding process_payment try_activate activate_paid_checkout
  paid_delivery t e v fits =
      let (amount, currency) = extract_amount local_now event.session in
      let (s, db', done, act) =
        fresh_activation now t provider_stripe event.session.id amount currency w.database v fits
          fresh in
      let told = confirm_lem settings bot t (in_database db' w) in
      let w' = (confirm_and_grant_access settings bot t (in_database db' w)).1 in
      let whole : handle_event settings bot now local_now (ok event) w
          ≡ (ok (record { status = 200; text = codes "ok" }), w') =
        to_payment
        ∙ ap (λ p. process_payment settings bot now local_now event.session p w) e
        ∙ ground (arith, done, report_paid settings bot t s (in_database db' w)) in
      let settled : db' ≡ (handle_event settings bot now local_now (ok event) w).1.database =
        sym (ap (λ r. r.1.database) whole ∙ told.2) in
      (
        s,
        ap (λ r. r.0) whole,
        subst (λ d. Activated now t provider_stripe event.session.id amount currency w.database s d)
            settled act,
        ap (λ r. r.1.calls) whole
            ∙ ap (λ d. (confirm_and_grant_access settings bot t (in_database d w)).1.calls) settled,
      )

  -- Such an event of a payer whose id the column cannot hold: whatever the database, the activation is
  -- rolled back, nobody is told, and the delivery is answered 500.
  pub oversized_payer :
      (t : ℤ)
      → extract_telegram_id event.session ≡ some t
      → fits_integer t ≡ false
      → handle_event settings bot now local_now (ok event) w
        ≡ (ok (record { status = 500; text = codes "activation failed" }), w)
  unfolding process_payment try_activate activate_paid_checkout report
  oversized_payer t e unfit =
      let (amount, currency) = extract_amount local_now event.session in
      to_payment
      ∙ ap (λ p. process_payment settings bot now local_now event.session p w) e
      ∙ ground (
        arith,
        activate_subscription_unfit now t provider_stripe event.session.id amount currency
            w.database unfit,
      )
